-- ===== src/Core/NativeMath.antt =====
-- lib/core/alu.cpp: the functions of namespace `native_math`. A register value is a number below
-- 2 ^ 32. Signed arithmetic that overflows is taken to wrap around; a signed `>>` rounds down.
pub mod Signed
mod Tests
pub mod Division
pub mod Shift
use simple_riscv_emulator.Common.{
  ℕ, ◌+◌, ◌-◌, ◌*◌, ◌/◌, ◌%◌, ◌^◌, Bool, true, false, not, ◌&&◌, ltb, ◌==◌, if◌then◌else◌, bit_and,
  bit_or, bit_xor, u32, u64, sub32, i32, i64, to_u32, ltb_ℤ, quot_ℤ, rem_ℤ, shr_ℤ, ◌<<<◌, ◌>>>◌,
}

abbrev pub eq : ℕ → ℕ → Bool
eq x y = x == y

abbrev pub lt : ℕ → ℕ → Bool
lt x y = ltb_ℤ (i32 x) (i32 y)

abbrev pub ltu : ℕ → ℕ → Bool
ltu x y = ltb x y

unfoldable pub sll : ℕ → ℕ → ℕ
sll x shift_amount = u32 (x <<< bit_and shift_amount 0b11111)

unfoldable pub srl : ℕ → ℕ → ℕ
srl x shift_amount = x >>> bit_and shift_amount 0b11111

unfoldable pub sra : ℕ → ℕ → ℕ
sra x shift_amount = to_u32 (shr_ℤ (i32 x) (bit_and shift_amount 0b11111))

unfoldable pub mul : ℕ → ℕ → ℕ
mul x y = u32 (x * y)

-- `static_cast<i64>` of a `u32` keeps its value: the operands are not sign-extended. Their product
-- may be beyond `i64`, which C++ leaves undefined; here it wraps around, as it does in the registers
-- of the machine.
unfoldable pub mulh : ℕ → ℕ → ℕ
mulh x y = to_u32 (shr_ℤ (i64 (u64 (x * y))) 32)

unfoldable pub mulhu : ℕ → ℕ → ℕ
mulhu x y = u32 (u64 (x * y) >>> 32)

unfoldable pub mulhsu : ℕ → ℕ → ℕ
mulhsu x y = u32 (u64 (x * y) >>> 32)

unfoldable pub div : ℕ → ℕ → ℕ
div x y =
    if y == 0
    then 0xffff_ffff
    else if x == 0x8000_0000 && y == 0xffff_ffff
    then x
    else to_u32 (quot_ℤ (i32 x) (i32 y))

unfoldable pub divu : ℕ → ℕ → ℕ
divu x y = if y == 0 then 0xffff_ffff else x / y

unfoldable pub rem : ℕ → ℕ → ℕ
rem x y =
    if y == 0
    then x
    else if x == 0x8000_0000 && y == 0xffff_ffff
    then 0
    else to_u32 (rem_ℤ (i32 x) (i32 y))

unfoldable pub remu : ℕ → ℕ → ℕ
remu x y = if y == 0 then x else x % y
