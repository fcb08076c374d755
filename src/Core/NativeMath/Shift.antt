-- ===== src/Core/NativeMath/Shift.antt =====
-- Shifts and comparisons.
use native.Mathlib.Nat.{div-le_self}
use simple_riscv_emulator.Common.{
  ℕ, ◌+◌, ◌-◌, ◌/◌, ◌%◌, ◌^◌, ◌<◌, ◌≡◌, arith, i32, u32, bit_and_mask, shr_ℤ, ℤ, pos, negsuc,
  i32-to_u32, ◌≤ℤ◌,
}
use simple_riscv_emulator.Core.NativeMath.{srl, sra, lt, ltu}

shr_ℤ-range :
    (z : ℤ) (k : ℕ)
    → negsuc (2 ^ 31 - 1) ≤ℤ z
    → z ≤ℤ pos (2 ^ 31 - 1)
    → (negsuc (2 ^ 31 - 1) ≤ℤ shr_ℤ z k) × (shr_ℤ z k ≤ℤ pos (2 ^ 31 - 1))
shr_ℤ-range (pos n) k lo hi = omega (arith, div-le_self n (2 ^ k))
shr_ℤ-range (negsuc n) k lo hi = omega (arith, div-le_self n (2 ^ k))

i32-range : (x : ℕ) → x < 2 ^ 32 → (negsuc (2 ^ 31 - 1) ≤ℤ i32 x) × (i32 x ≤ℤ pos (2 ^ 31 - 1))
i32-range x h = ground arith

-- On words, `sra` divides the signed value by a power of two, rounding down, and `srl` the unsigned
-- value; the shift amount counts modulo 32.
pub sra-floor :
    (x s : ℕ) → x < 2 ^ 32 → (i32 (sra x s) ≡ shr_ℤ (i32 x) (s % 32)) × (srl x s ≡ x / 2 ^ (s % 32))
unfolding sra srl
sra-floor x s h =
    let r = i32-range x h in
    let q = shr_ℤ-range (i32 x) (s % 32) r.0 r.1 in
    (rw (bit_and_mask 5 s) (i32-to_u32 _ q.0 q.1), rw (bit_and_mask 5 s))

-- On words, the signed order is the unsigned order after the top bits are flipped.
pub lt-ltu :
    (x y : ℕ) → x < 2 ^ 32 → y < 2 ^ 32 → lt x y ≡ ltu (u32 (x + 2 ^ 31)) (u32 (y + 2 ^ 31))
lt-ltu x y hx hy = ground arith
