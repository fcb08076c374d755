-- ===== src/Bitset/Laws.antt =====
-- `Bitset`: what concatenation and sign extension come to as arithmetic.
use native.Mathlib.Nat.{pow-suc, one-le-pow, mod-eq_of_lt, mod-lt}
use simple_riscv_emulator.Common.{
  ◌≤◌, ℕ, zero, suc, ◌+◌, ◌-◌, ◌*◌, ◌^◌, ◌<◌, ◌==◌, if◌then◌else◌, ◌≡◌, refl, arith, bit_or_fields,
  Bool-cases, inl, inr,
}
use simple_riscv_emulator.Bitset.{concat, sext, ones, take_bit}

pub pow-add : (b c : ℕ) → 2 ^ (b + c) ≡ 2 ^ b * 2 ^ c
pow-add b zero = let e : b + 0 ≡ b = omega arith in rw e (omega arith)
pow-add b (suc c) =
    let e : b + suc c ≡ suc (b + c) = omega arith in
    rw (e, pow-suc 2 (b + c), pow-suc 2 c, pow-add b c) (omega arith)

-- Concatenation is a sum of the shifted high part and the low part.
pub concat-add : (nb ny v w : ℕ) → v < 2 ^ nb → w < 2 ^ ny → concat nb ny v w ≡ v * 2 ^ ny + w
unfolding concat
concat-add nb ny v w hv hw =
    let below : v * 2 ^ ny + w < 2 ^ nb * 2 ^ ny = grind arith in
    rw (bit_or_fields ny v w hw, pow-add nb ny, mod-eq_of_lt below) refl

ones-lt : (nb : ℕ) → ones nb < 2 ^ nb
ones-lt nb = mod-lt (2 ^ 64 - 1) (one-le-pow nb 2 (omega arith))

-- Sign extension puts a word of ones, or of above the value, by its top bit.
pub sext-add :
    (nb ny v : ℕ)
    → v < 2 ^ nb
    → sext nb ny v ≡ (if take_bit (nb - 1) v == 1 then ones (ny - nb) else 0) * 2 ^ nb + v
unfolding sext
sext-add nb ny v h = elim (Bool-cases (take_bit (nb - 1) v == 1)) [
  | inl negative ↦ rw negative (concat-add (ny - nb) nb (ones (ny - nb)) v (ones-lt (ny - nb)) h)
  | inr other ↦ rw other (concat-add (ny - nb) nb 0 v (one-le-pow (ny - nb) 2 (omega arith)) h)
]

pub sext-lt : (nb x : ℕ) → nb ≤ 32 → sext nb 32 x < 2 ^ 32
unfolding sext concat
sext-lt nb x h = let e : 32 - nb + nb ≡ 32 = omega arith in rw e (omega arith)
