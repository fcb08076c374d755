-- ===== src/Device/BlockMemory/Supported.antt =====
-- `Block_memory` answers no access by `Not_supported`.
use simple_riscv_emulator.Common.{ℕ, ◌≢◌, arith, unexpected}
use simple_riscv_emulator.Core.Memory.{not_supported}
use simple_riscv_emulator.Device.BlockMemory.{BlockMemory, Page, read_page, write}

module _ (random : ℕ → Page) where
  pub read_page-supported :
      (b : BlockMemory) (a : ℕ) → (read_page random b a).1 ≢ unexpected not_supported
  unfolding read_page
  read_page-supported b a h = ground (arith, h)

  pub write-supported :
      (b : BlockMemory) (a d mask : ℕ) → (write random b a d mask).1 ≢ unexpected not_supported
  unfolding write
  write-supported b a d mask h = ground (arith, h)
