-- ===== src/Core/Decode/Result.antt =====
-- lib/include/core/decode.hpp: what a decoded instruction asks of the CPU's modules.
use simple_riscv_emulator.Common.{ℕ, Bool, false}
use simple_riscv_emulator.Core.Alu.{AluOpcode, BranchOpcode}
use simple_riscv_emulator.Core.Csr.{WriteMode, CsrAccessInfo}
use simple_riscv_emulator.Core.Memory.{Funct, LoadStoreOpcode}

-- `Register_source`.
pub data RegisterSource : Type 0 where
  none pc_plus_4 alu memory csr : RegisterSource

-- `Inst_decode_module::Result`.
pub record DecodeResult : Type 0 where
  pub writeback_source : RegisterSource
  pub dest_register : ℕ
  pub alu_opcode : AluOpcode
  pub alu_num1 : ℕ
  pub alu_num2 : ℕ
  pub branch_opcode : BranchOpcode
  pub branch_num1 : ℕ
  pub branch_num2 : ℕ
  pub memory_opcode : LoadStoreOpcode
  pub memory_funct : Funct
  pub memory_store_value : ℕ
  pub fencei : Bool
  pub ecall : Bool
  pub mret : Bool
  pub csr_access_info : CsrAccessInfo

-- `CSR_access_info{}`.
abbrev pub no_access : CsrAccessInfo
no_access = record { write_mode = WriteMode.none; address = 0; write_value = 0; read = false }

-- The default member initializers.
abbrev pub no_result : DecodeResult
no_result = record {
  writeback_source = RegisterSource.none;
  dest_register = 0;
  alu_opcode = AluOpcode.add;
  alu_num1 = 0;
  alu_num2 = 0;
  branch_opcode = BranchOpcode.none;
  branch_num1 = 0;
  branch_num2 = 0;
  memory_opcode = LoadStoreOpcode.none;
  memory_funct = Funct.none;
  memory_store_value = 0;
  fencei = false;
  ecall = false;
  mret = false;
  csr_access_info = no_access;
}
