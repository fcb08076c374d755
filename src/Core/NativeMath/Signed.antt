-- ===== src/Core/NativeMath/Signed.antt =====
-- `mul`, `mulh` and their kin against the products of signed and unsigned integers.
use simple_riscv_emulator.Common.{
  ℕ, ◌+◌, ◌-◌, ◌*◌, ◌/◌, ◌^◌, ◌≤◌, ◌<◌, ◌≡◌, arith, ltb, if◌then◌else◌, i32, i64, to_u32, u32, u64,
  shr_ℤ, ◌*ℤ◌,
}
use simple_riscv_emulator.Common.{
  ℤ, pos, negsuc, neg_ℕ, i32-cases, to_u32-lt, ◌↔◌, inl, inr, suc, ap, sym,
}
use simple_riscv_emulator.Core.NativeMath.{mul, mulh, mulhu, mulhsu}

-- The high word of the product of two signed words, which RISC-V asks of MULH.
abbrev pub signed_high : ℕ → ℕ → ℕ
signed_high x y = to_u32 (shr_ℤ (i32 x *ℤ i32 y) 32)

pub mul-lt : (x y : ℕ) → x < 2 ^ 32 → y < 2 ^ 32 → x * y < 2 ^ 64
mul-lt x y hx hy = let bound : x * y ≤ (2 ^ 32 - 1) * (2 ^ 32 - 1) = grind arith in omega arith

high_word : (p : ℕ) → p < 2 ^ 64 → to_u32 (shr_ℤ (i64 (u64 p)) 32) ≡ p / 2 ^ 32
high_word p h = ground arith

-- On words, `mulhu`, `mulh` and `mulhsu` all give the high word of the unsigned product.
pub mulh-unsigned :
    (x y : ℕ)
    → x < 2 ^ 32
    → y < 2 ^ 32
    → (mulhu x y ≡ x * y / 2 ^ 32) × (mulh x y ≡ x * y / 2 ^ 32) × (mulhsu x y ≡ x * y / 2 ^ 32)
unfolding mulh mulhu mulhsu
mulh-unsigned x y hx hy = omega (arith, mul-lt x y hx hy, high_word (x * y))

-- The product of two words by the signs of the integers that they stand for.
module _ (x y : ℕ) where
  abbrev product : ℤ
  product = i32 x *ℤ i32 y

  product-pos_pos : i32 x ≡ pos x → i32 y ≡ pos y → product ≡ pos (x * y)
  unfolding ◌*ℤ◌
  product-pos_pos e f = rw (e, f) (ground arith)

  product-pos_neg : (m : ℕ) → i32 x ≡ pos x → i32 y ≡ negsuc m → product ≡ neg_ℕ (x * suc m)
  unfolding ◌*ℤ◌
  product-pos_neg m e f = rw (e, f) (ground arith)

  product-neg_pos : (k : ℕ) → i32 x ≡ negsuc k → i32 y ≡ pos y → product ≡ neg_ℕ (suc k * y)
  unfolding ◌*ℤ◌
  product-neg_pos k e f = rw (e, f) (ground arith)

  product-neg_neg : (k m : ℕ) → i32 x ≡ negsuc k → i32 y ≡ negsuc m → product ≡ pos (suc k * suc m)
  unfolding ◌*ℤ◌
  product-neg_neg k m e f = rw (e, f) (ground arith)

low_neg : (p q n : ℕ) → p + q ≡ 2 ^ 32 * n → to_u32 (neg_ℕ p) ≡ u32 q
low_neg p q n e = ground arith

high_neg :
    (p q n : ℕ)
    → p + q ≡ 2 ^ 32 * n
    → n < 2 ^ 32
    → u32 (to_u32 (shr_ℤ (neg_ℕ p) 32) + n) ≡ u32 (q / 2 ^ 32)
high_neg p q n e h = ground arith

-- `mul` gives the low word of the signed product of two words.
pub mul-signed : (x y : ℕ) → x < 2 ^ 32 → y < 2 ^ 32 → mul x y ≡ to_u32 (i32 x *ℤ i32 y)
unfolding mul
mul-signed x y hx hy = elim (i32-cases x hx) [
  | inl (lx, ex) ↦ elim (i32-cases y hy) [
    | inl (ly, ey) ↦ rw (product-pos_pos x y ex ey)
    | inr (m, dm, ly, ey) ↦
        let whole : x * suc m + x * y ≡ 2 ^ 32 * x = omega (arith, ap (λ (t : ℕ). x * t) dm) in
        rw (product-pos_neg x y m ex ey) (sym (low_neg _ _ x whole))
  ]
  | inr (k, dk, lx, ex) ↦ elim (i32-cases y hy) [
    | inl (ly, ey) ↦
        let whole : suc k * y + x * y ≡ 2 ^ 32 * y = omega (arith, ap (λ (t : ℕ). t * y) dk) in
        rw (product-neg_pos x y k ex ey) (sym (low_neg _ _ y whole))
    | inr (m, dm, ly, ey) ↦
        rw (product-neg_neg x y k m ex ey)
          (omega (arith, ap (λ (t : ℕ). suc k * t) dm, ap (λ (t : ℕ). t * y) dk))
  ]
]

-- What the unsigned high word has over the signed one, mod 2 ^ 32: each operand once if the other
-- one is negative.
abbrev pub excess : ℕ → ℕ → ℕ
excess x y = (if ltb x (2 ^ 31) then 0 else y) + (if ltb y (2 ^ 31) then 0 else x)

signed_high-excess :
    (x y : ℕ) → x < 2 ^ 32 → y < 2 ^ 32 → u32 (signed_high x y + excess x y) ≡ u32 (x * y / 2 ^ 32)
signed_high-excess x y hx hy = elim (i32-cases x hx) [
  | inl (lx, ex) ↦ elim (i32-cases y hy) [
    | inl (ly, ey) ↦ rw (product-pos_pos x y ex ey) (ground arith)
    | inr (m, dm, ly, ey) ↦
        let whole : x * suc m + x * y ≡ 2 ^ 32 * x = omega (arith, ap (λ (t : ℕ). x * t) dm) in
        rw (product-pos_neg x y m ex ey) (ground (arith, high_neg _ _ x whole))
  ]
  | inr (k, dk, lx, ex) ↦ elim (i32-cases y hy) [
    | inl (ly, ey) ↦
        let whole : suc k * y + x * y ≡ 2 ^ 32 * y = omega (arith, ap (λ (t : ℕ). t * y) dk) in
        rw (product-neg_pos x y k ex ey) (ground (arith, high_neg _ _ y whole))
    | inr (m, dm, ly, ey) ↦
        let whole : suc k * suc m + 2 ^ 32 * x + 2 ^ 32 * y ≡ 2 ^ 64 + x * y =
          omega (arith, ap (λ (t : ℕ). suc k * t) dm, ap (λ (t : ℕ). t * y) dk) in
        rw (product-neg_neg x y k m ex ey) (ground (arith, whole))
  ]
]

-- `mulh` is the signed high word plus that excess.
pub mulh-excess :
    (x y : ℕ) → x < 2 ^ 32 → y < 2 ^ 32 → mulh x y ≡ u32 (signed_high x y + excess x y)
mulh-excess x y hx hy =
    omega (arith, mulh-unsigned x y hx hy, signed_high-excess x y hx hy, mul-lt x y hx hy)

-- `mulh` gives the signed high word of two words if and only if the excess, which is the sum of the
-- other operand for each negative one, is a multiple of 2 ^ 32.
pub mulh-eq-signed_high :
    (x y : ℕ) → x < 2 ^ 32 → y < 2 ^ 32 → (mulh x y ≡ signed_high x y) ↔ (u32 (excess x y) ≡ 0)
mulh-eq-signed_high x y hx hy =
    let e = mulh-excess x y hx hy in
    let b = to_u32-lt (shr_ℤ (i32 x *ℤ i32 y) 32) in (λ h. omega arith, λ h. omega arith)
