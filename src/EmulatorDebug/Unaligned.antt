-- ===== src/EmulatorDebug/Unaligned.antt =====
-- main/src/emulator-debug.cpp: `handle_mem_write` on the platform, whose devices write words only.
use simple_riscv_emulator.Common.{
  below_four, ℕ, ◌+◌, ◌*◌, ◌%◌, ◌^◌, ◌<◌, false, List, ◌∷◌, ◌==◌, bit_and, bit_and_mask, u32, ◌<<<◌,
  Expected, ok, unexpected, Expected-cases, ◌≡◌, ◌≢◌, inl, inr, refl, sym, ◌∙◌, arith, Bool-cases,
}
use simple_riscv_emulator.Core.Memory.{MemoryError}
use simple_riscv_emulator.Device.BlockMemory.{BlockMemory, Page}
use simple_riscv_emulator.Device.BlockMemory as Block
use simple_riscv_emulator.Device.Uart as UartDevice
use simple_riscv_emulator.Device.Clock as ClockDevice
use simple_riscv_emulator.Platform.{
  PlatformMemory, Device, Randomness, get_memory, write_device, write, interconnect,
}
use simple_riscv_emulator.GdbStub.Response.{Response, error_code}
use simple_riscv_emulator.EmulatorDebug.MemoryHandlers.{write_bytes, handle_mem_write}

abbrev IsError : Expected (Unit {0}) MemoryError → Type 0
IsError (ok _) = ⊥
IsError (unexpected e) = Unit

low_bits : (a : ℕ) → a % 4 ≢ 0 → (bit_and a 0x3 == 0) ≡ false
low_bits a h = let e = bit_and_mask 2 a in ground (arith, e)

block_write-IsError :
    (random : ℕ → Page) (b : BlockMemory) (a d mask : ℕ)
    → a % 4 ≢ 0
    → mask ≢ 0
    → IsError (Block.write random b a d mask).1
unfolding Block.write
block_write-IsError random b a d mask h nz = ground (arith, low_bits a h)

uart_write-IsError :
    (u : UartDevice.Uart) (a d mask : ℕ) → a % 4 ≢ 0 → IsError (UartDevice.write u a d mask).1
unfolding UartDevice.write
uart_write-IsError u a d mask h = rw (low_bits a h) tt

clock_write-IsError :
    (c : ClockDevice.Clock) (a d mask : ℕ) → a % 4 ≢ 0 → IsError (ClockDevice.write c a d mask).1
unfolding ClockDevice.write
clock_write-IsError c a d mask h = rw (low_bits a h) tt

-- The devices start at multiples of 4.
get_memory-offset :
    (m : PlatformMemory) (a offset : ℕ) (device : Device)
    → get_memory m a ≡ ok (device, offset)
    → offset % 4 ≡ a % 4
unfolding get_memory
get_memory-offset m a offset device e = ground (arith, e)

mask-ne-zero : (a : ℕ) → 1 <<< (a % 4) ≢ 0
mask-ne-zero a =
    below_four (λ j. 1 <<< j ≢ 0) (omega arith) (omega arith) (omega arith) (omega arith) (a % 4)
      (omega arith)

module _ (random : Randomness) where
  write_device-IsError :
      (m : PlatformMemory) (device : Device) (a d mask : ℕ)
      → a % 4 ≢ 0
      → mask ≢ 0
      → IsError (write_device random m device a d mask).1
  unfolding write_device
  write_device-IsError m Device.ram a d mask h nz =
      block_write-IsError random.page m.ram a d mask h nz
  write_device-IsError m Device.rom a d mask h nz =
      block_write-IsError random.page m.rom a d mask h nz
  write_device-IsError m Device.uart a d mask h nz = uart_write-IsError m.uart a d mask h
  write_device-IsError m Device.clock a d mask h nz = clock_write-IsError m.clock_periph a d mask h

  -- No device takes a write at an address that is no multiple of 4.
  write-IsError :
      (m : PlatformMemory) (a d mask : ℕ)
      → a % 4 ≢ 0
      → mask ≢ 0
      → IsError (write random m a d mask).1
  unfolding write
  write-IsError m a d mask h nz = elim (Expected-cases (get_memory m a)) [
    | inl ((device, offset), e) ↦
        let same = get_memory-offset m a offset device e in
        rw (IsError, write, e)
          (write_device-IsError m device offset d mask (λ z. h (sym same ∙ z)) nz)
    | inr (error, e) ↦ rw (IsError, write, e) tt
  ]

  -- The rest of the loop behind a write.
  abbrev after_write :
      PlatformMemory → Expected (Unit {0}) MemoryError → ℕ → List ℕ → PlatformMemory × Response
  after_write s r a bytes = elim r [
    | unexpected e ↦ (s, error_code 0)
    | ok _ ↦ write_bytes (interconnect random) s a bytes
  ]

  after_write-IsError :
      (s : PlatformMemory) (r : Expected (Unit {0}) MemoryError) (a : ℕ) (bytes : List ℕ)
      → IsError r
      → (after_write s r a bytes).1 ≡ error_code 0
  after_write-IsError s (unexpected e) a bytes h = refl
  after_write-IsError s (ok x) a bytes h = absurd h

  -- A byte at an address that is no multiple of 4 ends the command with an error.
  write_bytes-unaligned :
      (s : PlatformMemory) (a byte : ℕ) (bytes : List ℕ)
      → a % 4 ≢ 0
      → (write_bytes (interconnect random) s a (byte ∷ bytes)).1 ≡ error_code 0
  unfolding write_bytes
  write_bytes-unaligned s a byte bytes h =
      after_write-IsError _ _ (u32 (a + 1)) bytes
        (write-IsError s a (u32 (byte <<< (a % 4 * 8))) (1 <<< (a % 4)) h (mask-ne-zero a))

  after_write-unaligned :
      (s : PlatformMemory) (r : Expected (Unit {0}) MemoryError) (a byte : ℕ) (bytes : List ℕ)
      → a % 4 ≢ 0
      → (after_write s r a (byte ∷ bytes)).1 ≡ error_code 0
  after_write-unaligned s (unexpected e) a byte bytes h = refl
  after_write-unaligned s (ok x) a byte bytes h = write_bytes-unaligned s a byte bytes h

  -- On the platform, a command to write two bytes or more at any address is answered with an error:
  -- the second byte, if not the first, is written at an address that is no multiple of 4.
  pub handle_mem_write-error :
      (m : PlatformMemory) (address byte byte' : ℕ) (bytes : List ℕ)
      → address < 2 ^ 32
      → (handle_mem_write (interconnect random) m address (byte ∷ byte' ∷ bytes)).1 ≡ error_code 0
  unfolding handle_mem_write write_bytes
  handle_mem_write-error m a byte byte' bytes h = elim (Bool-cases (a % 4 == 0)) [
    | inl z ↦
        let aligned : a % 4 ≡ 0 = ground arith in
        let written = write random m a (u32 (byte <<< (a % 4 * 8))) (1 <<< (a % 4)) in
        after_write-unaligned written.0 written.1 (u32 (a + 1)) byte' bytes (omega arith)
    | inr nz ↦ write_bytes-unaligned m a byte (byte' ∷ bytes) (ground arith)
  ]
