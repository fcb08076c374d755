-- ===== src/Common/Word.antt =====
-- Machine words as native numbers: `u8`, `u16`, `u32`, `u64` are the casts to the unsigned types,
-- `i8` to `i64` the integers that a word stands for as a signed type, `to_u32` the cast back.
use Prim.Native.Nat.{ℕ, zero, suc, ◌+◌, ◌-◌, ◌*◌, ◌/◌, ◌%◌, ◌^◌, ◌≤◌, ◌<◌}
use mathlib.Core.Path.{◌≡◌}
use mathlib.Core.Logic.{◌⊎◌, inl, inr}
use native.Mathlib.Omega.{arith}
use simple_riscv_emulator.Common.Tests.{ltb, if◌then◌else◌, Bool-cases}
use simple_riscv_emulator.Common.Int.{ℤ, pos, negsuc, ◌≤ℤ◌}

abbrev pub u8 : ℕ → ℕ
u8 n = n % 2 ^ 8

abbrev pub u16 : ℕ → ℕ
u16 n = n % 2 ^ 16

abbrev pub u32 : ℕ → ℕ
u32 n = n % 2 ^ 32

abbrev pub u64 : ℕ → ℕ
u64 n = n % 2 ^ 64

infixl 75 ◌<<<◌ ◌>>>◌
abbrev pub ◌<<<◌ : ℕ → ℕ → ℕ
x <<< k = x * 2 ^ k

abbrev pub ◌>>>◌ : ℕ → ℕ → ℕ
x >>> k = x / 2 ^ k

-- `-` on ℕ stops at 0, so the modulus is added first.
abbrev pub sub32 : ℕ → ℕ → ℕ
sub32 a b = u32 (a + 2 ^ 32 - b)

abbrev pub not32 : ℕ → ℕ
not32 a = 2 ^ 32 - 1 - a

abbrev pub i8 : ℕ → ℤ
i8 w = if ltb w (2 ^ 7) then pos w else negsuc (2 ^ 8 - w - 1)

abbrev pub i16 : ℕ → ℤ
i16 w = if ltb w (2 ^ 15) then pos w else negsuc (2 ^ 16 - w - 1)

abbrev pub i32 : ℕ → ℤ
i32 w = if ltb w (2 ^ 31) then pos w else negsuc (2 ^ 32 - w - 1)

abbrev pub i64 : ℕ → ℤ
i64 w = if ltb w (2 ^ 63) then pos w else negsuc (2 ^ 64 - w - 1)

abbrev pub to_u32 : ℤ → ℕ
to_u32 (pos n) = u32 n
to_u32 (negsuc n) = 2 ^ 32 - 1 - u32 n

pub to_u32-i32 : (w : ℕ) → w < 2 ^ 32 → to_u32 (i32 w) ≡ w
to_u32-i32 w h = ground arith

pub to_u32-lt : (z : ℤ) → to_u32 z < 2 ^ 32
to_u32-lt z = ground arith

-- An integer in the range of `i32` survives the cast to `u32` and back.
pub i32-to_u32 : (z : ℤ) → negsuc (2 ^ 31 - 1) ≤ℤ z → z ≤ℤ pos (2 ^ 31 - 1) → i32 (to_u32 z) ≡ z
i32-to_u32 z lo hi = ground arith

-- A word below 2 ^ 31 stands for itself, any other for its distance to 2 ^ 32, negated.
pub i32-cases :
    (w : ℕ)
    → w < 2 ^ 32
    → (w < 2 ^ 31) × (i32 w ≡ pos w)
      ⊎ (m : ℕ) × (suc m + w ≡ 2 ^ 32) × (2 ^ 31 ≤ w) × (i32 w ≡ negsuc m)
i32-cases w h = elim (Bool-cases (ltb w (2 ^ 31))) [
  | inl low ↦ inl (ground arith, ground arith)
  | inr high ↦ inr (2 ^ 32 - w - 1, ground arith, ground arith, ground arith)
]

-- A number below four, case by case.
pub below_four {ℓ} : (P : ℕ → Type ℓ) → P 0 → P 1 → P 2 → P 3 → (k : ℕ) → k < 4 → P k
below_four P p0 p1 p2 p3 zero h = p0
below_four P p0 p1 p2 p3 (suc zero) h = p1
below_four P p0 p1 p2 p3 (suc (suc zero)) h = p2
below_four P p0 p1 p2 p3 (suc (suc (suc zero))) h = p3
below_four P p0 p1 p2 p3 (suc (suc (suc (suc k)))) h = absurd (omega arith)
