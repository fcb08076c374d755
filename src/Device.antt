-- ===== src/Device.antt =====
-- lib/device and lib/include/device: the devices behind the memory interface.
pub mod BlockMemory
pub mod Clock
pub mod Uart
