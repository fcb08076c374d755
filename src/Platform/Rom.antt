-- ===== src/Platform/Rom.antt =====
-- The ROM of a platform never changes, and which accesses the interconnect does not support.
use simple_riscv_emulator.Common.{
  ℕ, ◌≡◌, ◌≢◌, refl, arith, true, inl, inr, unexpected, Expected-cases,
}
use simple_riscv_emulator.Core.Memory.{not_supported}
use simple_riscv_emulator.Device.BlockMemory.{BlockMemory, Page}
use simple_riscv_emulator.Device.BlockMemory as Block
use simple_riscv_emulator.Device.BlockMemory.Supported.{write-supported}
use simple_riscv_emulator.Device.Uart as UartDevice
use simple_riscv_emulator.Device.Clock as ClockDevice
use simple_riscv_emulator.Platform.{
  PlatformMemory, Device, Randomness, get_memory, write, write_device,
}

block-locked :
    (random : ℕ → Page) (b : BlockMemory) (a d mask : ℕ)
    → b.write_lock ≡ true
    → (Block.write random b a d mask).0 ≡ b
unfolding Block.write
block-locked random b a d mask h = ground (arith, h)

module _ (random : Randomness) where
  write_device-rom :
      (m : PlatformMemory) (device : Device) (a d mask : ℕ)
      → m.rom.write_lock ≡ true
      → (write_device random m device a d mask).0.rom ≡ m.rom
  unfolding write_device
  write_device-rom m Device.ram a d mask h = refl
  write_device-rom m Device.rom a d mask h = block-locked random.page m.rom a d mask h
  write_device-rom m Device.uart a d mask h = refl
  write_device-rom m Device.clock a d mask h = refl

  -- No write through the interconnect, at whatever address, changes a locked ROM.
  pub write-rom :
      (m : PlatformMemory) (a d mask : ℕ)
      → m.rom.write_lock ≡ true
      → (write random m a d mask).0.rom ≡ m.rom
  unfolding write
  write-rom m a d mask h = elim (Expected-cases (get_memory m a)) [
    | inl ((device, offset), found) ↦ rw (write, found) (write_device-rom m device offset d mask h)
    | inr (e, missing) ↦ rw (write, missing) refl
  ]

  write_device-supported :
      (m : PlatformMemory) (device : Device) (a d mask : ℕ)
      → (write_device random m device a d mask).1 ≢ unexpected not_supported
  unfolding write_device UartDevice.write ClockDevice.write
  write_device-supported m Device.ram a d mask h = write-supported random.page m.ram a d mask h
  write_device-supported m Device.rom a d mask h = write-supported random.page m.rom a d mask h
  write_device-supported m Device.uart a d mask h = ground (arith, h)
  write_device-supported m Device.clock a d mask h = ground (arith, h)

  get_memory-error : (m : PlatformMemory) (a : ℕ) → get_memory m a ≢ unexpected not_supported
  unfolding get_memory
  get_memory-error m a h = ground (arith, h)

  -- No write is answered by `not_supported`.
  pub platform-SupportsWrites :
      (m : PlatformMemory) (a d mask : ℕ) → (write random m a d mask).1 ≢ unexpected not_supported
  unfolding write
  platform-SupportsWrites m a d mask h = elim (Expected-cases (get_memory m a)) [
    | inl ((device, offset), found) ↦
        write_device-supported m device offset d mask (ground (arith, h, found))
    | inr (e, missing) ↦ get_memory-error m a (ground (arith, h, missing))
  ]
