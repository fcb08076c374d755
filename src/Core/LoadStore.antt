-- ===== src/Core/LoadStore.antt =====
-- lib/core/memory.cpp: `Load_store_module` and `get_size`.
pub mod Lanes
pub mod Bytes
pub mod Loads
pub mod Tests
use simple_riscv_emulator.Common.{
  ℕ, ◌*◌, ◌%◌, ◌^◌, Bool, true, false, ◌==◌, if◌then◌else◌, bit_and, u8, u16, u32, i8, i16, to_u32,
  ◌<<<◌, ◌>>>◌, Option, some, Expected, ok, unexpected,
}
use simple_riscv_emulator.Core.Trap.{
  load_address_misaligned, load_access_fault, store_address_misaligned, store_access_fault,
}
use simple_riscv_emulator.Core.Outcome.{Outcome, returns, traps, throws}
use simple_riscv_emulator.Core.Memory.{
  MemoryError, out_of_range, unaligned, access_fault, device_error, not_supported, MemoryInterface,
  Funct, LoadStoreOpcode,
}

unfoldable pub is_aligned : ℕ → Funct → Bool
is_aligned address Funct.load_byte = true
is_aligned address Funct.store_byte = true
is_aligned address Funct.load_byte_unsigned = true
is_aligned address Funct.load_halfword = bit_and address 0x1 == 0
is_aligned address Funct.store_halfword = bit_and address 0x1 == 0
is_aligned address Funct.load_halfword_unsigned = bit_and address 0x1 == 0
is_aligned address Funct.load_word = bit_and address 0x3 == 0
is_aligned address Funct.store_word = bit_and address 0x3 == 0
is_aligned address Funct.none = false

-- The `switch` of a load on the word read, with `shift = byte_offset * 8`.
unfoldable pub load_value : Funct → ℕ → ℕ → Outcome ℕ
load_value Funct.load_byte shift value = returns (to_u32 (i8 (u8 (value >>> shift))))
load_value Funct.load_halfword shift value = returns (to_u32 (i16 (u16 (value >>> shift))))
load_value Funct.load_word shift value = returns value
load_value Funct.load_byte_unsigned shift value = returns (u8 (value >>> shift))
load_value Funct.load_halfword_unsigned shift value = returns (u16 (value >>> shift))
load_value _ shift value = throws

-- The `switch` of a store on its byte mask, a `Bitset<4>`; none if it throws.
unfoldable pub store_mask : Funct → ℕ → Option ℕ
store_mask Funct.store_byte byte_offset = some (0b0001 <<< byte_offset % 2 ^ 4)
store_mask Funct.store_halfword byte_offset = some (0b0011 <<< byte_offset % 2 ^ 4)
store_mask Funct.store_word byte_offset = some 0b1111
store_mask _ byte_offset = Option.none

-- What becomes of the memory's answer to a store.
unfoldable pub store_result : Expected (Unit {0}) MemoryError → Outcome ℕ
store_result (ok _) = returns 0
store_result (unexpected out_of_range) = traps store_access_fault
store_result (unexpected access_fault) = traps store_access_fault
store_result (unexpected device_error) = traps store_access_fault
store_result (unexpected unaligned) = traps store_address_misaligned
store_result (unexpected not_supported) = throws

-- What becomes of the memory's answer to a load.
unfoldable pub load_result : Funct → ℕ → Expected ℕ MemoryError → Outcome ℕ
load_result funct shift (ok value) = load_value funct shift value
load_result funct shift (unexpected e) = traps load_access_fault

module _ {S : Type 0} (m : MemoryInterface S) where
  unfoldable pub load : S → Funct → ℕ → S × Outcome ℕ
  load s funct address =
      if is_aligned address funct
      then (let (s', r) = m.read s (bit_and address 0xffff_fffc) in
          (s', load_result funct (bit_and address 0x3 * 8) r))
      else (s, traps load_address_misaligned)

  -- The write of a store, after its `switch`.
  unfoldable pub store_masked : Option ℕ → S → ℕ → ℕ → S × Outcome ℕ
  store_masked Option.none s address store_value = (s, throws)
  store_masked (some mask) s address store_value =
      let (s', r) =
        m.write s (bit_and address 0xffff_fffc) (u32 (store_value <<< (bit_and address 0x3 * 8)))
          mask in
      (s', store_result r)

  unfoldable pub store : S → Funct → ℕ → ℕ → S × Outcome ℕ
  store s funct address store_value =
      if is_aligned address funct
      then store_masked (store_mask funct (bit_and address 0x3)) s address store_value
      else (s, traps store_address_misaligned)

  -- `Load_store_module::operator()`.
  unfoldable pub load_store : S → LoadStoreOpcode → Funct → ℕ → ℕ → S × Outcome ℕ
  load_store s LoadStoreOpcode.none funct address store_value = (s, returns 0)
  load_store s LoadStoreOpcode.load funct address store_value = load s funct address
  load_store s LoadStoreOpcode.store funct address store_value = store s funct address store_value

-- `get_size`, which throws without a size.
unfoldable pub get_size : Funct → Option ℕ
get_size Funct.load_byte = some 1
get_size Funct.load_byte_unsigned = some 1
get_size Funct.store_byte = some 1
get_size Funct.load_halfword = some 2
get_size Funct.load_halfword_unsigned = some 2
get_size Funct.store_halfword = some 2
get_size Funct.load_word = some 4
get_size Funct.store_word = some 4
get_size Funct.none = Option.none
