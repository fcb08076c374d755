-- ===== src/Bitset.antt =====
-- lib/include/common/bitset.hpp: `Bitset<Nb>`, a number below 2 ^ Nb. The template parameters are
-- arguments here; a constructor's `value & mask` is the remainder by 2 ^ Nb.
pub mod Laws
use simple_riscv_emulator.Common.{
  ℕ, zero, suc, ◌+◌, ◌-◌, ◌*◌, ◌/◌, ◌%◌, ◌^◌, ◌==◌, if◌then◌else◌, bit_and, bit_or,
}

-- `Bitset<Nb>(value)`.
abbrev pub bitset : ℕ → ℕ → ℕ
bitset nb value = value % 2 ^ nb

-- `slice<MSB, LSB>()`.
abbrev pub slice : ℕ → ℕ → ℕ → ℕ
slice msb lsb value = value / 2 ^ lsb % 2 ^ (msb - lsb + 1)

-- `take_bit<Bit>()`.
abbrev pub take_bit : ℕ → ℕ → ℕ
take_bit i value = value / 2 ^ i % 2

-- `Bitset<Nb> + Bitset<Ny>`, the first in the high bits.
unfoldable pub concat : ℕ → ℕ → ℕ → ℕ → ℕ
concat nb ny value other = bitset (nb + ny) (bit_or (value * 2 ^ ny) other)

abbrev pub zeros : ℕ → ℕ
zeros nb = 0

abbrev pub ones : ℕ → ℕ
ones nb = bitset nb (2 ^ 64 - 1)

-- `Bitset<Nb>::sext<Ny>()`.
unfoldable pub sext : ℕ → ℕ → ℕ → ℕ
unfolding concat
sext nb ny value =
    concat (ny - nb) nb (if take_bit (nb - 1) value == 1 then ones (ny - nb) else zeros (ny - nb))
      value

-- `Bitset<Nb>::expand_byte_mask()`; the source refuses a width of 0.
unfoldable pub expand_byte_mask : ℕ → ℕ → ℕ
unfolding concat sext
expand_byte_mask zero value = 0
expand_byte_mask (suc zero) value = sext 1 8 (slice 0 0 value)
expand_byte_mask (suc (suc n)) value =
    concat 8 (suc n * 8) (sext 1 8 (slice (suc n) (suc n) value))
      (expand_byte_mask (suc n) (slice n 0 value))

-- `Bitset<32>::choose_bits<u32>(if_one, if_zero)`.
unfoldable pub choose_bits : ℕ → ℕ → ℕ → ℕ
choose_bits mask if_one if_zero = bit_or (bit_and if_one mask) (bit_and if_zero (2 ^ 32 - 1 - mask))
