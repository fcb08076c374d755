-- ===== src/Common/Bits/Step.antt =====
-- `&`, `|` and `^` by one equation for the lowest digit. The native operations mean `bitwise`, a
-- recursion over the digits of the first number with that number as its fuel; `f` joins two
-- digits and `z` is what is left of the second number when the first has run out.
use Prim.Native.Nat.{
  ℕ, zero, suc, ◌+◌, ◌-◌, ◌*◌, ◌/◌, ◌%◌, ◌≤◌, bit_and, bit_or, bit_xor, min, max, digits, bitwise,
  differ, bit_and-bitwise, bit_or-bitwise, bit_xor-bitwise,
}
use mathlib.Core.Path.{◌≡◌, refl}
use native.Mathlib.Omega.{arith}

module _ (z : ℕ → ℕ) (f : ℕ → ℕ → ℕ) where
  -- More fuel than the number has digits changes nothing.
  digits_more : (n extra a b : ℕ) → a ≤ n → digits z f (n + extra) a b ≡ digits z f n a b
  digits_more n extra zero b h = nothing_left (n + extra) n
    where
      nothing_left : (k l : ℕ) → digits z f k zero b ≡ digits z f l zero b
      nothing_left zero zero = refl
      nothing_left zero (suc l) = refl
      nothing_left (suc k) zero = refl
      nothing_left (suc k) (suc l) = refl
  digits_more zero extra (suc a) b h = absurd (omega arith)
  digits_more (suc n) extra (suc a) b h =
      let e : suc n + extra ≡ suc (n + extra) = omega arith in
      rw (e, digits_more n extra (suc a / 2) (b / 2) (omega arith)) refl

  pub bitwise_low :
      ((b : ℕ) → z b ≡ z (b / 2) * 2 + f 0 (b % 2))
      → (a b : ℕ) → bitwise z f a b ≡ bitwise z f (a / 2) (b / 2) * 2 + f (a % 2) (b % 2)
  bitwise_low runs_out zero b = runs_out b
  bitwise_low runs_out (suc a) b =
      let e : a ≡ suc a / 2 + (a - suc a / 2) = omega arith in
      let shorter = digits_more (suc a / 2) (a - suc a / 2) (suc a / 2) (b / 2) (omega arith) in
      omega (arith, shorter, digits_at e)
    where
      digits_at :
          {k : ℕ} → a ≡ k → digits z f a (suc a / 2) (b / 2) ≡ digits z f k (suc a / 2) (b / 2)
      digits_at e = rw (← e) refl

-- Exclusive or of two digits, as the sum's remainder.
differ-add : (x y : ℕ) → x ≤ 1 → y ≤ 1 → differ x y ≡ (x + y) % 2
differ-add zero y h k = omega arith
differ-add (suc zero) zero h k = refl
differ-add (suc zero) (suc zero) h k = refl
differ-add (suc zero) (suc (suc y)) h k = absurd (omega arith)
differ-add (suc (suc x)) y h k = absurd (omega arith)

pub bit_and_step : (a b : ℕ) → bit_and a b ≡ bit_and (a / 2) (b / 2) * 2 + min (a % 2) (b % 2)
bit_and_step a b = simp bit_and-bitwise (bitwise_low (λ y. 0) min (λ y. omega arith) a b)

pub bit_or_step : (a b : ℕ) → bit_or a b ≡ bit_or (a / 2) (b / 2) * 2 + max (a % 2) (b % 2)
bit_or_step a b = simp bit_or-bitwise (bitwise_low (λ y. y) max (λ y. omega arith) a b)

pub bit_xor_step : (a b : ℕ) → bit_xor a b ≡ bit_xor (a / 2) (b / 2) * 2 + (a % 2 + b % 2) % 2
bit_xor_step a b =
    let low = bitwise_low (λ y. y) differ (λ y. omega arith) a b in
    simp bit_xor-bitwise (omega (arith, low, differ-add (a % 2) (b % 2)))
