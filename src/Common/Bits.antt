-- ===== src/Common/Bits.antt =====
-- The laws of `&`, `|` and `^` at every width: digit by digit, with masks, of disjoint fields,
-- and their bounds.
mod Step
use Prim.Native.Nat.{
  ℕ, zero, suc, ◌+◌, ◌-◌, ◌*◌, ◌/◌, ◌%◌, ◌^◌, ◌≤◌, ◌<◌, bit_and, bit_or, bit_xor, min, max,
  bit_and-bitwise, bit_or-bitwise,
}
use mathlib.Core.Path.{◌≡◌, refl, ap}
use native.Mathlib.Nat.{pow-suc, one-le-pow, div-div-eq-div-mul, div-add-mod, mod-eq_of_lt}
use native.Mathlib.Omega.{arith}
pub use Step.{bit_or_step, bit_and_step, bit_xor_step}

-- The digit of `a` at index `i`, the lowest first.
abbrev pub bit : ℕ → ℕ → ℕ
bit zero a = a % 2
bit (suc i) a = bit i (a / 2)

pub bit-le : (i a : ℕ) → bit i a ≤ 1
bit-le zero a = omega arith
bit-le (suc i) a = bit-le i (a / 2)

-- Numbers of the same width and the same digits are equal.
pub bit_ext : (w a b : ℕ) → a < 2 ^ w → b < 2 ^ w → ((i : ℕ) → i < w → bit i a ≡ bit i b) → a ≡ b
bit_ext zero a b ha hb h = omega arith
bit_ext (suc w) a b ha hb h =
    let half =
      bit_ext w (a / 2) (b / 2) (omega (arith, pow-suc 2 w)) (omega (arith, pow-suc 2 w))
        (λ i k. h (suc i) (omega arith)) in
    omega (arith, half, h 0 (omega arith))

pub bit-bit_and : (i a b : ℕ) → bit i (bit_and a b) ≡ min (bit i a) (bit i b)
bit-bit_and zero a b = omega (arith, bit_and_step a b)
bit-bit_and (suc i) a b =
    let e : bit_and a b / 2 ≡ bit_and (a / 2) (b / 2) = omega (arith, bit_and_step a b) in
    rw e (bit-bit_and i (a / 2) (b / 2))

pub bit-bit_or : (i a b : ℕ) → bit i (bit_or a b) ≡ max (bit i a) (bit i b)
bit-bit_or zero a b = omega (arith, bit_or_step a b)
bit-bit_or (suc i) a b =
    let e : bit_or a b / 2 ≡ bit_or (a / 2) (b / 2) = omega (arith, bit_or_step a b) in
    rw e (bit-bit_or i (a / 2) (b / 2))

zero-bit_and : (b : ℕ) → bit_and 0 b ≡ 0
zero-bit_and b = bit_and-bitwise 0 b

zero-bit_or : (b : ℕ) → bit_or 0 b ≡ b
zero-bit_or b = bit_or-bitwise 0 b

pub bit_and-lt : (w a b : ℕ) → a < 2 ^ w → bit_and a b < 2 ^ w
bit_and-lt zero a b h = let e : a ≡ 0 = omega arith in rw e (omega (arith, zero-bit_and b))
bit_and-lt (suc w) a b h = omega (
  arith,
  pow-suc 2 w,
  bit_and_step a b,
  bit_and-lt w (a / 2) (b / 2) (omega (arith, pow-suc 2 w)),
)

pub bit_or-lt : (w a b : ℕ) → a < 2 ^ w → b < 2 ^ w → bit_or a b < 2 ^ w
bit_or-lt zero a b h k =
    let e : a ≡ 0 = omega arith in let e' : b ≡ 0 = omega arith in rw (e, e') (omega arith)
bit_or-lt (suc w) a b h k =
    let low = pow-suc 2 w in
    omega (
      arith,
      low,
      bit_or_step a b,
      bit_or-lt w (a / 2) (b / 2) (omega (arith, low)) (omega (arith, low)),
    )

pub bit_xor-lt : (w a b : ℕ) → a < 2 ^ w → b < 2 ^ w → bit_xor a b < 2 ^ w
bit_xor-lt zero a b h k =
    let e : a ≡ 0 = omega arith in let e' : b ≡ 0 = omega arith in rw (e, e') (omega arith)
bit_xor-lt (suc w) a b h k =
    let low = pow-suc 2 w in
    omega (
      arith,
      low,
      bit_xor_step a b,
      bit_xor-lt w (a / 2) (b / 2) (omega (arith, low)) (omega (arith, low)),
    )

bit_and-zero : (w a : ℕ) → a < 2 ^ w → bit_and a 0 ≡ 0
bit_and-zero zero a h = let e : a ≡ 0 = omega arith in rw e (zero-bit_and 0)
bit_and-zero (suc w) a h =
    omega (arith, bit_and_step a 0, bit_and-zero w (a / 2) (omega (arith, pow-suc 2 w)))

bit_or-zero : (w a : ℕ) → a < 2 ^ w → bit_or a 0 ≡ a
bit_or-zero zero a h = let e : a ≡ 0 = omega arith in rw e (zero-bit_or 0)
bit_or-zero (suc w) a h =
    omega (arith, bit_or_step a 0, bit_or-zero w (a / 2) (omega (arith, pow-suc 2 w)))

lt-two_pow : (a : ℕ) → a < 2 ^ a
lt-two_pow zero = omega arith
lt-two_pow (suc a) = omega (arith, lt-two_pow a, pow-suc 2 a)

-- Division and remainder by 2 * p go through those by 2 and p.
div_double : (p a : ℕ) → a / (p * 2) ≡ a / 2 / p
div_double p a = let e : p * 2 ≡ 2 * p = omega arith in rw (e, div-div-eq-div-mul a 2 p)

mod_double : (p a : ℕ) → 0 < p → a % (p * 2) ≡ a / 2 % p * 2 + a % 2
mod_double p a h = omega (
  arith,
  div-add-mod a (p * 2),
  div-add-mod (a / 2) p,
  ap (λ (t : ℕ). p * 2 * t) (div_double p a),
)

-- A mask of the `k` lowest digits.
pub bit_and_mask : (k a : ℕ) → bit_and a (2 ^ k - 1) ≡ a % 2 ^ k
bit_and_mask zero a = omega (arith, bit_and-zero a a (lt-two_pow a))
bit_and_mask (suc k) a =
    let halves : (2 ^ k * 2 - 1) / 2 ≡ 2 ^ k - 1 = omega (arith, one-le-pow k 2) in
    let low : (2 ^ k * 2 - 1) % 2 ≡ 1 = omega (arith, one-le-pow k 2) in
    let whole = mod_double (2 ^ k) a (omega (arith, one-le-pow k 2)) in
    rw (pow-suc 2 k, bit_and_step, halves, low, bit_and_mask k (a / 2), whole) (omega arith)

-- A mask of the digits from `k` to `w` rounds down.
pub bit_and-align : (w k a : ℕ) → k ≤ w → a < 2 ^ w → bit_and a (2 ^ w - 2 ^ k) ≡ a / 2 ^ k * 2 ^ k
bit_and-align w zero a h fits =
    let inside : a % 2 ^ w ≡ a = mod-eq_of_lt fits in rw (bit_and_mask w a, inside) (omega arith)
bit_and-align zero (suc k) a h fits = absurd (omega arith)
bit_and-align (suc w) (suc k) a h fits =
    let grows = pow-suc 2 w in
    let halves : (2 ^ w * 2 - 2 ^ k * 2) / 2 ≡ 2 ^ w - 2 ^ k = omega arith in
    let low : (2 ^ w * 2 - 2 ^ k * 2) % 2 ≡ 0 = omega arith in
    let rest = bit_and-align w k (a / 2) (omega arith) (omega (arith, grows)) in
    rw (pow-suc 2 k, grows, bit_and_step, halves, low, rest, div_double) (omega arith)

-- Fields that do not overlap add up.
pub bit_or_fields : (k q r : ℕ) → r < 2 ^ k → bit_or (q * 2 ^ k) r ≡ q * 2 ^ k + r
bit_or_fields zero q r fits =
    let e : r ≡ 0 = omega arith in
    let whole : q * 2 ^ 0 ≡ q = omega arith in
    rw (e, whole, bit_or-zero q q (lt-two_pow q)) (omega arith)
bit_or_fields (suc k) q r fits =
    let half : q * (2 ^ k * 2) / 2 ≡ q * 2 ^ k = omega arith in
    let low : q * (2 ^ k * 2) % 2 ≡ 0 = omega arith in
    let rest = bit_or_fields k q (r / 2) (omega (arith, pow-suc 2 k)) in
    rw (pow-suc 2 k, bit_or_step, half, low, rest) (omega arith)
