-- ===== src/Platform/Steps.antt =====
-- When a step of the CPU on the platform ends the emulator by `std::logic_error`.
use simple_riscv_emulator.Common.{
  ℕ, ◌*◌, ◌%◌, ◌^◌, ◌<◌, ◌≡◌, ◌≢◌, refl, arith, false, inl, inr, ◌⊎◌, ok, unexpected,
  Expected-cases, none, bit_and, bit_and-align, ap,
}
use simple_riscv_emulator.Core.Memory.{not_supported}
use simple_riscv_emulator.Core.Outcome.{throws}
use simple_riscv_emulator.Core.InstFetch.{Cache, fetch, fill, is_hit, page_of, page_trap}
use simple_riscv_emulator.Core.RegisterFile.Laws.{IsValid}
use simple_riscv_emulator.Core.Cpu.State.{Cpu, Uninit}
use simple_riscv_emulator.Core.Cpu.{step}
use simple_riscv_emulator.Core.Cpu.Total.{step-some}
use simple_riscv_emulator.Device.BlockMemory.Supported.{read_page-supported}
use simple_riscv_emulator.Device.Uart as UartDevice
use simple_riscv_emulator.Device.Clock as ClockDevice
use simple_riscv_emulator.Platform.{
  PlatformMemory, Device, Randomness, get_memory, read_page, read_page_device, interconnect,
}
use simple_riscv_emulator.Platform.Rom.{platform-SupportsWrites}

-- The pages of the UART and the clock.
abbrev pub IsPeripheral : ℕ → Type 0
IsPeripheral page = (page ≡ 0x0001_0000) ⊎ (page ≡ 0x0001_1000)

-- The ROM and the RAM of the constructor.
pub record HasLayout (m : PlatformMemory) : Type 0 where
  pub rom_size : m.rom.actual_size_bytes ≡ 128 * 1024
  pub ram_size : m.ram.actual_size_bytes ≡ 2 * 1024 * 1024 * 1024

module _ (random : Randomness) where
  device-unsupported :
      (m : PlatformMemory) (d : Device) (a : ℕ)
      → (read_page_device random m d a).1 ≡ unexpected not_supported
      → (d ≡ Device.uart) ⊎ (d ≡ Device.clock)
  unfolding read_page_device
  device-unsupported m Device.ram a h = absurd (read_page-supported random.page m.ram a h)
  device-unsupported m Device.rom a h = absurd (read_page-supported random.page m.rom a h)
  device-unsupported m Device.uart a h = inl refl
  device-unsupported m Device.clock a h = inr refl

  get_memory-IsPeripheral :
      (m : PlatformMemory) (a offset : ℕ) (d : Device)
      → a % 4096 ≡ 0
      → get_memory m a ≡ ok (d, offset)
      → (d ≡ Device.uart) ⊎ (d ≡ Device.clock)
      → IsPeripheral a
  unfolding get_memory
  get_memory-IsPeripheral m a offset d aligned found peripheral =
      ground (arith, aligned, found, peripheral)

  get_memory-supported : (m : PlatformMemory) (a : ℕ) → get_memory m a ≢ unexpected not_supported
  unfolding get_memory
  get_memory-supported m a h = ground (arith, h)

  read_page-IsPeripheral :
      (m : PlatformMemory) (a : ℕ)
      → a % 4096 ≡ 0
      → (read_page random m a).1 ≡ unexpected not_supported
      → IsPeripheral a
  unfolding read_page
  read_page-IsPeripheral m a aligned h = elim (Expected-cases (get_memory m a)) [
    | inl ((d, offset), found) ↦
        get_memory-IsPeripheral m a offset d aligned found
          (device-unsupported m d offset (ground (arith, h, found)))
    | inr (e, missing) ↦ absurd (get_memory-supported m a (ground (arith, h, missing)))
  ]

  page_of-aligned : (pc : ℕ) → pc < 2 ^ 32 → page_of pc % 4096 ≡ 0
  page_of-aligned pc lt = let e = bit_and-align 32 12 pc (omega arith) lt in omega (arith, e)

  -- On the platform a step has a result, with a trap or without, unless the pc is in the page of
  -- the UART or the clock, if the register file is valid and the pc is a word.
  pub platform_step-some :
      (c : Cpu PlatformMemory) (u : Uninit)
      → ¬ IsPeripheral (page_of c.pc)
      → IsValid c.registers
      → c.pc < 2 ^ 32
      → (step (interconnect random) c u).1 ≢ none
  platform_step-some c u outside valid lt =
      step-some (interconnect random) c u (platform-SupportsWrites random)
        (λ h. outside (read_page-IsPeripheral c.memory (page_of c.pc) (page_of-aligned c.pc lt) h))
        valid lt

  read_page-uart :
      (m : PlatformMemory) (a : ℕ)
      → HasLayout m
      → IsPeripheral a
      → (read_page random m a).1 ≡ unexpected not_supported
  unfolding read_page get_memory read_page_device UartDevice.read_page ClockDevice.read_page
  read_page-uart m a h p = ground (arith, p, h.rom_size, h.ram_size)

  fill-unsupported :
      (cache : Cache) (pc : ℕ) → (fill cache pc (unexpected not_supported)).1 ≡ throws
  unfolding fill page_trap
  fill-unsupported cache pc = refl

  -- With a ROM and a RAM of the sizes of the platform, a fetch at an aligned pc in the page of the
  -- UART or the clock that misses the cache throws `std::logic_error` in place of a trap.
  pub fetch-peripheral :
      (m : PlatformMemory) (cache : Cache) (pc : ℕ)
      → HasLayout m
      → IsPeripheral (page_of pc)
      → bit_and pc 3 ≡ 0
      → is_hit cache pc ≡ false
      → (fetch (interconnect random) m cache pc).2 ≡ throws
  unfolding fetch
  fetch-peripheral m cache pc h p aligned miss =
      let e = read_page-uart m (page_of pc) h p in
      let last = fill-unsupported cache pc in
      ground (arith, aligned, miss, ap (λ r. (fill cache pc r).1) e, last)
