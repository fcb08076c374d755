-- ===== src/Core/Alu/Bounds.antt =====
-- The results of the ALU are words.
use simple_riscv_emulator.Common.{
  ℕ, ◌^◌, ◌<◌, arith, bit_and-lt, bit_or-lt, bit_xor-lt, to_u32-lt, i32, bit_and, shr_ℤ, quot_ℤ,
  rem_ℤ, Bool-cases, inl, inr,
}
use native.Mathlib.Nat.{div-le_self, div-add-mod}
use simple_riscv_emulator.Core.NativeMath.{lt, sll, srl, sra, mul, div, divu, rem, remu}
use simple_riscv_emulator.Core.NativeMath.Signed.{mulh-unsigned, mul-lt}
use simple_riscv_emulator.Core.Alu.{AluOpcode, alu}

srl-lt : (x s : ℕ) → x < 2 ^ 32 → srl x s < 2 ^ 32
unfolding srl
srl-lt x s h = omega (arith, div-le_self x (2 ^ bit_and s 0b11111))

-- From words as operands, every operation gives a word.
pub alu-lt : (o : AluOpcode) (x y : ℕ) → x < 2 ^ 32 → y < 2 ^ 32 → alu o x y < 2 ^ 32
unfolding alu sll sra mul div divu rem remu
alu-lt AluOpcode.add x y hx hy = omega arith
alu-lt AluOpcode.sub x y hx hy = ground arith
alu-lt AluOpcode.sll x y hx hy = omega arith
alu-lt AluOpcode.srl x y hx hy = srl-lt x y hx
alu-lt AluOpcode.sra x y hx hy = to_u32-lt (shr_ℤ (i32 x) (bit_and y 0b11111))
alu-lt AluOpcode.and x y hx hy = bit_and-lt 32 x y hx
alu-lt AluOpcode.or x y hx hy = bit_or-lt 32 x y hx hy
alu-lt AluOpcode.xor x y hx hy = bit_xor-lt 32 x y hx hy
alu-lt AluOpcode.mul x y hx hy = ground arith
alu-lt AluOpcode.mulh x y hx hy = omega (arith, mulh-unsigned x y hx hy, mul-lt x y hx hy)
alu-lt AluOpcode.mulhu x y hx hy = omega (arith, mulh-unsigned x y hx hy, mul-lt x y hx hy)
alu-lt AluOpcode.mulhsu x y hx hy = omega (arith, mulh-unsigned x y hx hy, mul-lt x y hx hy)
alu-lt AluOpcode.slt x y hx hy = elim (Bool-cases (lt x y)) [
  | inl less ↦ rw less (omega arith)
  | inr not_less ↦ rw not_less (omega arith)
]
alu-lt AluOpcode.sltu x y hx hy = ground arith
alu-lt AluOpcode.div x y hx hy =
    let quotient = to_u32-lt (quot_ℤ (i32 x) (i32 y)) in ground (arith, hx, quotient)
alu-lt AluOpcode.rem x y hx hy =
    let remainder = to_u32-lt (rem_ℤ (i32 x) (i32 y)) in ground (arith, hx, remainder)
alu-lt AluOpcode.divu x y hx hy = ground (arith, div-le_self x y)
alu-lt AluOpcode.remu x y hx hy = ground (arith, div-add-mod x y)
alu-lt AluOpcode.czero_eqz x y hx hy = ground arith
alu-lt AluOpcode.czero_nez x y hx hy = ground arith
