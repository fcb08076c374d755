-- ===== src/Core/NativeMath/Division.antt =====
-- `div`, `rem`, `divu`, `remu` as Euclidean division, signed and unsigned, with the two cases that
-- RISC-V fixes.
use native.Mathlib.Nat.{div-add-mod, div-le_self, mod-lt}
use simple_riscv_emulator.Common.{
  ℕ, suc, ◌+◌, ◌*◌, ◌/◌, ◌%◌, ◌^◌, ◌≤◌, ◌<◌, ◌≡◌, arith, i32, to_u32, u32, quot_ℤ, rem_ℤ, pos,
}
use simple_riscv_emulator.Common.{
  ap, ℤ, negsuc, false, ◌-◌, pos_part, neg_part, neg_ℕ, ◌⊎◌, i32-cases, Bool-cases, nat_abs, ◌≤ℤ◌,
  ◌≢◌, i32-to_u32, inl, inr, ◌==◌, ◌&&◌,
}
use simple_riscv_emulator.Core.NativeMath.{div, rem, divu, remu}

-- A negated word completes it to 2 ^ 32, but for 0.
to_u32-neg_ℕ :
    (n : ℕ) → n ≤ 2 ^ 32 → (to_u32 (neg_ℕ n) + n ≡ 2 ^ 32) ⊎ (n ≡ 0) × (to_u32 (neg_ℕ n) ≡ 0)
to_u32-neg_ℕ n h = ground arith

-- Quotient and remainder of two magnitudes, each side negated where the signs ask for it.
module _ (a b : ℕ) (a_fits : a ≤ 2 ^ 32) where
  magnitudes : a / b * b + a % b ≡ a
  magnitudes = omega (arith, div-add-mod a b)

  pos_both : a < 2 ^ 32 → u32 (to_u32 (pos (a / b)) * b + to_u32 (pos (a % b))) ≡ a
  pos_both h =
      let small : to_u32 (pos (a / b)) ≡ a / b = omega (arith, div-le_self a b) in
      rw small (omega (arith, magnitudes))

  neg_quotient :
      (y : ℕ) → b + y ≡ 2 ^ 32 → u32 (to_u32 (neg_ℕ (a / b)) * y + to_u32 (pos (a % b))) ≡ u32 a
  neg_quotient y e = elim (to_u32-neg_ℕ (a / b) (omega (arith, div-le_self a b))) [
    | inl n ↦ omega (arith, magnitudes, ap (λ (t : ℕ). t * y) n, ap (λ (t : ℕ). a / b * t) e)
    | inr (z, n) ↦ rw n (omega (arith, magnitudes, ap (λ (t : ℕ). t * b) z))
  ]

  module _ (x : ℕ) (x_fits : x < 2 ^ 32) (e : a + x ≡ 2 ^ 32) where
    neg_dividend : u32 (to_u32 (neg_ℕ (a / b)) * b + to_u32 (neg_ℕ (a % b))) ≡ x
    neg_dividend = elim (to_u32-neg_ℕ (a / b) (omega (arith, div-le_self a b))) [
      | inl n ↦ omega (
        arith,
        magnitudes,
        ap (λ (t : ℕ). t * b) n,
        to_u32-neg_ℕ (a % b) (omega (arith, magnitudes)),
      )
      | inr (z, n) ↦ rw n (
          omega (
            arith,
            magnitudes,
            ap (λ (t : ℕ). t * b) z,
            to_u32-neg_ℕ (a % b) (omega (arith, magnitudes)),
          ))
    ]

    neg_both :
        (y : ℕ)
        → b + y ≡ 2 ^ 32
        → 0 < x
        → u32 (to_u32 (pos (a / b)) * y + to_u32 (neg_ℕ (a % b))) ≡ x
    neg_both y f p =
        let small : to_u32 (pos (a / b)) ≡ a / b = omega (arith, div-le_self a b) in
        rw small (
          omega (
            arith,
            magnitudes,
            ap (λ (t : ℕ). a / b * t) f,
            to_u32-neg_ℕ (a % b) (omega (arith, magnitudes)),
          ))

pub divu-remu : (x y : ℕ) → x < 2 ^ 32 → y < 2 ^ 32 → u32 (divu x y * y + remu x y) ≡ x
unfolding divu remu
divu-remu x y hx hy = ground (arith, div-add-mod x y)

by_sign :
    (x y : ℕ)
    → x < 2 ^ 32
    → y < 2 ^ 32
    → 0 < y
    → u32 (to_u32 (quot_ℤ (i32 x) (i32 y)) * y + to_u32 (rem_ℤ (i32 x) (i32 y))) ≡ x
by_sign x y hx hy py = elim (i32-cases x hx) [
  | inl (lx, ex) ↦ elim (i32-cases y hy) [
    | inl (ly, ey) ↦ rw (ex, ey) (pos_both x y (omega arith) hx)
    | inr (m, dm, ly, ey) ↦ rw (ex, ey) (omega (arith, neg_quotient x (suc m) (omega arith) y dm))
  ]
  | inr (k, dk, lx, ex) ↦ elim (i32-cases y hy) [
    | inl (ly, ey) ↦ rw (ex, ey) (neg_dividend (suc k) y (omega arith) x hx dk)
    | inr (m, dm, ly, ey) ↦
        rw (ex, ey) (neg_both (suc k) (suc m) (omega arith) x hx dk y dm (omega arith))
  ]
]

-- On words, signed quotient times divisor plus remainder is the dividend, modulo 2 ^ 32, also for
-- the divisor 0 and on overflow.
pub div-rem : (x y : ℕ) → x < 2 ^ 32 → y < 2 ^ 32 → u32 (div x y * y + rem x y) ≡ x
unfolding div rem
div-rem x y hx hy = elim (Bool-cases (y == 0)) [
  | inl z ↦ rw z (ground arith)
  | inr nz ↦ elim (Bool-cases (x == 0x8000_0000 && y == 0xffff_ffff)) [
    | inl over ↦ rw (nz, over) (ground arith)
    | inr fits ↦ rw (nz, fits) (by_sign x y hx hy (ground arith))
  ]
]

rem_ℤ-lt : (a b : ℤ) → 0 < nat_abs b → nat_abs (rem_ℤ a b) < nat_abs b
rem_ℤ-lt (pos a) b h = omega (arith, mod-lt a h)
rem_ℤ-lt (negsuc a) b h = ground (arith, mod-lt (suc a) h)

rem_ℤ-range :
    (a b : ℤ)
    → 0 < nat_abs b
    → nat_abs b ≤ 2 ^ 31
    → (negsuc (2 ^ 31 - 1) ≤ℤ rem_ℤ a b) × (rem_ℤ a b ≤ℤ pos (2 ^ 31 - 1))
rem_ℤ-range (pos a) b h k = ground (arith, rem_ℤ-lt (pos a) b h)
rem_ℤ-range (negsuc a) b h k = ground (arith, rem_ℤ-lt (negsuc a) b h)

-- With a divisor other than 0, the remainder is that of the integers, also where the quotient
-- overflows.
i32-rem : (x y : ℕ) → x < 2 ^ 32 → y < 2 ^ 32 → y ≢ 0 → i32 (rem x y) ≡ rem_ℤ (i32 x) (i32 y)
unfolding rem
i32-rem x y hx hy h =
    let size : (0 < nat_abs (i32 y)) × (nat_abs (i32 y) ≤ 2 ^ 31) = ground arith in
    let range = rem_ℤ-range (i32 x) (i32 y) size.0 size.1 in
    let nonzero : (y == 0) ≡ false = ground arith in
    elim (Bool-cases (x == 0x8000_0000 && y == 0xffff_ffff)) [
      | inl over ↦ rw (nonzero, over) (ground arith)
      | inr fits ↦ rw (nonzero, fits) (i32-to_u32 _ range.0 range.1)
    ]

rem_ℤ-parts :
    (a b : ℤ)
    → (nat_abs (rem_ℤ a b) ≡ nat_abs a % nat_abs b)
      × (neg_part a * pos_part (rem_ℤ a b) ≡ 0)
      × (pos_part a * neg_part (rem_ℤ a b) ≡ 0)
rem_ℤ-parts (pos a) b = omega arith
rem_ℤ-parts (negsuc a) b = ground arith

-- For words and a divisor other than 0, the signed remainder is smaller in magnitude than the
-- divisor, its magnitude is the remainder of the magnitudes, and it has the sign of the dividend or
-- is 0.
pub rem-sign :
    (x y : ℕ)
    → x < 2 ^ 32
    → y < 2 ^ 32
    → y ≢ 0
    → (nat_abs (i32 (rem x y)) < nat_abs (i32 y))
      × (nat_abs (i32 (rem x y)) ≡ nat_abs (i32 x) % nat_abs (i32 y))
      × (neg_part (i32 x) * pos_part (i32 (rem x y)) ≡ 0)
      × (pos_part (i32 x) * neg_part (i32 (rem x y)) ≡ 0)
rem-sign x y hx hy h =
    let size : 0 < nat_abs (i32 y) = ground arith in
    let parts = rem_ℤ-parts (i32 x) (i32 y) in
    rw (i32-rem x y hx hy h) (rem_ℤ-lt (i32 x) (i32 y) size, parts.0, parts.1, parts.2)
