-- ===== src/GdbStub/Accessor.antt =====
-- lib/gdb-stub/accessor.cpp: bytes of the memory and registers by their numbers, for the debugger.
use simple_riscv_emulator.Common.{
  ℕ, ◌-◌, ◌*◌, ◌^◌, ◌%◌, Bool, true, false, Option, some, ltb, leb, ◌==◌, if◌then◌else◌, bit_and,
  u32, ◌<<<◌, Expected, ok, unexpected,
}
use simple_riscv_emulator.Core.Memory.{MemoryInterface, MemoryError, byte_of}
use simple_riscv_emulator.Core.Cpu.State.{Cpu}
use simple_riscv_emulator.Core.Csr.{Csr, CsrError, access, CsrAccessInfo, WriteMode}
use simple_riscv_emulator.Core.RegisterFile.{get_register, set_register}
pub mod Memory
pub mod Register
mod Tests

-- `address & ~0x3`.
abbrev pub align : ℕ → ℕ
align address = bit_and address (2 ^ 32 - 2 ^ 2)

abbrev pub has_value {ℓ κ} : {A : Type ℓ} {E : Type κ} → Expected A E → Bool
has_value (ok a) = true
has_value (unexpected e) = false

abbrev pub to_optional {ℓ κ} : {A : Type ℓ} {E : Type κ} → Expected A E → Option A
to_optional (ok a) = some a
to_optional (unexpected e) = Option.none

-- The byte of a word that was read.
unfoldable pub byte_in : Expected ℕ MemoryError → ℕ → Option ℕ
byte_in (ok word) k = some (byte_of k word)
byte_in (unexpected e) k = Option.none

module _ {S : Type 0} (m : MemoryInterface S) where
  unfoldable pub read : S → ℕ → S × Option ℕ
  unfolding byte_in
  read s address =
      let (s', word) = m.read s (align address) in (s', byte_in word (bit_and address 0x3))

  unfoldable pub write : S → ℕ → ℕ → S × Bool
  write s address value =
      let byte_enable = 1 <<< bit_and address 0x3 in
      let write_data = u32 (value <<< (bit_and address 0x3 * 8)) in
      let (s', done) = m.write s (align address) write_data byte_enable in (s', has_value done)

-- `CSR_access_info::address` has 12 bits.
abbrev pub csr_info : WriteMode → ℕ → ℕ → CsrAccessInfo
csr_info mode reg_num value = record {
  write_mode = mode;
  address = (reg_num - 128) % 2 ^ 12;
  write_value = value;
  read = true;
}

module _ {S : Type 0} where
  unfoldable pub read_register : Cpu S → ℕ → Cpu S × Option ℕ
  read_register c reg_num =
      if ltb reg_num 32
      then (c, some (get_register c.registers reg_num))
      else if reg_num == 32
      then (c, some c.pc)
      else if leb 128 reg_num
      then (let (csr, result) = access c.csr (csr_info WriteMode.none reg_num 0) in
          (record c { csr = csr }, to_optional result))
      else (c, Option.none)

  unfoldable pub write_register : Cpu S → ℕ → ℕ → Cpu S × Bool
  write_register c reg_num value =
      if ltb reg_num 32
      then (record c { registers = set_register c.registers reg_num value }, true)
      else if reg_num == 32
      then (record c { pc = value }, true)
      else if leb 128 reg_num
      then (let (csr, result) = access c.csr (csr_info WriteMode.overwrite reg_num value) in
          (record c { csr = csr }, has_value result))
      else (c, false)
