-- ===== src/Core/Alu.antt =====
-- lib/core/alu.cpp and lib/include/core/alu.hpp: `ALU_module` and `Branch_module`.
pub mod Bounds
use simple_riscv_emulator.Common.{
  ℕ, ◌+◌, Bool, false, not, ◌==◌, if◌then◌else◌, bit_and, bit_or, bit_xor, u32, sub32,
}
use simple_riscv_emulator.Core.NativeMath

-- `ALU_module::Opcode`.
pub data AluOpcode : Type 0 where
  add sub sll srl sra slt sltu and or xor mul mulh mulhsu mulhu div divu rem remu : AluOpcode
  czero_eqz czero_nez : AluOpcode

-- `ALU_module::operator()`.
unfoldable pub alu : AluOpcode → ℕ → ℕ → ℕ
alu AluOpcode.add x y = u32 (x + y)
alu AluOpcode.sub x y = sub32 x y
alu AluOpcode.sll x y = NativeMath.sll x y
alu AluOpcode.srl x y = NativeMath.srl x y
alu AluOpcode.sra x y = NativeMath.sra x y
alu AluOpcode.slt x y = if NativeMath.lt x y then 1 else 0
alu AluOpcode.sltu x y = if NativeMath.ltu x y then 1 else 0
alu AluOpcode.and x y = bit_and x y
alu AluOpcode.or x y = bit_or x y
alu AluOpcode.xor x y = bit_xor x y
alu AluOpcode.mul x y = NativeMath.mul x y
alu AluOpcode.mulh x y = NativeMath.mulh x y
alu AluOpcode.mulhsu x y = NativeMath.mulhsu x y
alu AluOpcode.mulhu x y = NativeMath.mulhu x y
alu AluOpcode.div x y = NativeMath.div x y
alu AluOpcode.rem x y = NativeMath.rem x y
alu AluOpcode.divu x y = NativeMath.divu x y
alu AluOpcode.remu x y = NativeMath.remu x y
alu AluOpcode.czero_eqz x y = if y == 0 then 0 else x
alu AluOpcode.czero_nez x y = if y == 0 then x else 0

-- `Branch_module::Opcode`.
pub data BranchOpcode : Type 0 where
  none eq ne lt ge ltu geu : BranchOpcode

-- `Branch_module::operator()`.
unfoldable pub branch : BranchOpcode → ℕ → ℕ → Bool
branch BranchOpcode.none x y = false
branch BranchOpcode.eq x y = NativeMath.eq x y
branch BranchOpcode.ne x y = not (NativeMath.eq x y)
branch BranchOpcode.lt x y = NativeMath.lt x y
branch BranchOpcode.ge x y = not (NativeMath.lt x y)
branch BranchOpcode.ltu x y = NativeMath.ltu x y
branch BranchOpcode.geu x y = not (NativeMath.ltu x y)
