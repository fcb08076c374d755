-- ===== src/Core/Csr/Masked.antt =====
-- The masked store of csr.cpp, bit by bit.
use simple_riscv_emulator.Common.{
  ℕ, zero, suc, ◌-◌, ◌/◌, ◌^◌, ◌<◌, ◌≡◌, refl, arith, max, bit, bit-le, bit_ext, bit-bit_and,
  bit-bit_or, bit_and-lt, bit_or-lt, bit_and, not32, ◌==◌, if◌then◌else◌, pow-suc,
}
use simple_riscv_emulator.Core.Csr.{WriteMode, masked, write_value_mask}

bit-complement : (w i a : ℕ) → i < w → a < 2 ^ w → bit i (2 ^ w - 1 - a) ≡ 1 - bit i a
bit-complement zero i a h lt = absurd (omega arith)
bit-complement (suc w) zero a h lt = omega (arith, pow-suc 2 w)
bit-complement (suc w) (suc i) a h lt =
    let half : (2 ^ suc w - 1 - a) / 2 ≡ 2 ^ w - 1 - a / 2 = omega (arith, pow-suc 2 w) in
    rw half (bit-complement w i (a / 2) (omega arith) (omega (arith, pow-suc 2 w)))

bit-zero : (i : ℕ) → bit i 0 ≡ 0
bit-zero zero = refl
bit-zero (suc i) = bit-zero i

bit-ones : (i : ℕ) → i < 32 → bit i 0xffff_ffff ≡ 1
bit-ones i h = let e = bit-complement 32 i 0 h (omega arith) in omega (arith, e, bit-zero i)

-- Each bit of the stored word is the new one where the mask has a 1, or else the old one.
pub bit-masked :
    (i mask value dst : ℕ)
    → i < 32
    → mask < 2 ^ 32
    → bit i (masked mask value dst) ≡ (if bit i mask == 1 then bit i value else bit i dst)
unfolding masked
bit-masked i mask value dst h lt =
    let outer = bit-bit_or i (bit_and dst (not32 mask)) (bit_and value mask) in
    let kept = bit-bit_and i dst (not32 mask) in
    let new = bit-bit_and i value mask in
    let flip = bit-complement 32 i mask h lt in
    rw (outer, kept, new, flip) (ground (arith, bit-le i mask, bit-le i value, bit-le i dst))

pub masked-lt :
    (mask value dst : ℕ) → value < 2 ^ 32 → dst < 2 ^ 32 → masked mask value dst < 2 ^ 32
unfolding masked
masked-lt mask value dst hv hd =
    bit_or-lt 32 (bit_and dst (not32 mask)) (bit_and value mask) (bit_and-lt 32 dst (not32 mask) hd)
      (bit_and-lt 32 value mask hv)

-- A store with no bit in its mask keeps the word.
pub masked-zero : (value dst : ℕ) → value < 2 ^ 32 → dst < 2 ^ 32 → masked 0 value dst ≡ dst
masked-zero value dst v h = bit_ext 32 (masked 0 value dst) dst bound h by_bit
  where
    bound : masked 0 value dst < 2 ^ 32
    bound = masked-lt 0 value dst v h

    by_bit : (i : ℕ) → i < 32 → bit i (masked 0 value dst) ≡ bit i dst
    by_bit i k = let e = bit-masked i 0 value dst k (omega arith) in rw (e, bit-zero i) refl

-- The bit that a write mode makes of the bit written and the bit there.
abbrev pub written_bit : WriteMode → ℕ → ℕ → ℕ
written_bit WriteMode.none value old = old
written_bit WriteMode.overwrite value old = value
written_bit WriteMode.set value old = max value old
written_bit WriteMode.clear value old = if value == 1 then 0 else old

-- The word that an access stores.
abbrev pub new_word : WriteMode → ℕ → ℕ → ℕ
new_word mode value old =
    let (write_value, write_mask) = write_value_mask mode value in masked write_mask write_value old

pub bit-new_word :
    (i : ℕ) (mode : WriteMode) (value old : ℕ)
    → i < 32
    → value < 2 ^ 32
    → bit i (new_word mode value old) ≡ written_bit mode (bit i value) (bit i old)
unfolding write_value_mask
bit-new_word i WriteMode.none value old h lt =
    rw (bit-masked i 0 0 old h (omega arith), bit-zero i) refl
bit-new_word i WriteMode.overwrite value old h lt =
    rw (bit-masked i 0xffff_ffff value old h (omega arith), bit-ones i h) refl
bit-new_word i WriteMode.set value old h lt =
    rw (bit-masked i value 0xffff_ffff old h lt, bit-ones i h)
      (ground (arith, bit-le i value, bit-le i old))
bit-new_word i WriteMode.clear value old h lt = rw (bit-masked i value 0 old h lt, bit-zero i) refl

pub new_word-lt :
    (mode : WriteMode) (value old : ℕ)
    → value < 2 ^ 32
    → old < 2 ^ 32
    → new_word mode value old < 2 ^ 32
unfolding write_value_mask
new_word-lt WriteMode.none value old h k = masked-lt 0 0 old (omega arith) k
new_word-lt WriteMode.overwrite value old h k = masked-lt 0xffff_ffff value old h k
new_word-lt WriteMode.set value old h k = masked-lt value 0xffff_ffff old (omega arith) k
new_word-lt WriteMode.clear value old h k = masked-lt value 0 old (omega arith) k
