-- ===== src/Core.antt =====
-- lib/core and lib/include/core: the CPU's modules.
pub mod NativeMath
pub mod Alu
pub mod RegisterFile
pub mod Trap
pub mod Csr
pub mod Memory
pub mod Inst
pub mod Decode
pub mod Outcome
pub mod LoadStore
pub mod InstFetch
pub mod Cpu
