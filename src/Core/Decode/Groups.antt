-- ===== src/Core/Decode/Groups.antt =====
-- lib/core/decode.cpp: the decoders of the opcode groups that access no control register.
use simple_riscv_emulator.Common.{
  ℕ, Bool, true, List, [], ◌∷◌, get_or, ◌==◌, if◌then◌else◌, Expected, ok, unexpected,
}
use simple_riscv_emulator.Bitset.{slice, take_bit}
use simple_riscv_emulator.Core.Alu.{AluOpcode, BranchOpcode}
use simple_riscv_emulator.Core.Memory.{Funct, LoadStoreOpcode}
use simple_riscv_emulator.Core.RegisterFile.{RegisterFile, get_register}
use simple_riscv_emulator.Core.Trap.{Trap, illegal_instruction}
use simple_riscv_emulator.Core.Inst.{rtype, itype, stype, btype, utype, jtype}
use simple_riscv_emulator.Core.Decode.Result.{RegisterSource, DecodeResult, no_result}

unfoldable pub decode_lui : ℕ → DecodeResult
decode_lui instr = record no_result {
  writeback_source = RegisterSource.alu;
  dest_register = (utype instr).rd;
  alu_opcode = AluOpcode.add;
  alu_num1 = (utype instr).imm;
  alu_num2 = 0;
}

unfoldable pub decode_auipc : ℕ → ℕ → DecodeResult
decode_auipc instr pc = record no_result {
  writeback_source = RegisterSource.alu;
  dest_register = (utype instr).rd;
  alu_opcode = AluOpcode.add;
  alu_num1 = pc;
  alu_num2 = (utype instr).imm;
}

unfoldable pub decode_jal : ℕ → ℕ → DecodeResult
decode_jal instr pc = record no_result {
  writeback_source = RegisterSource.pc_plus_4;
  dest_register = (jtype instr).rd;
  alu_opcode = AluOpcode.add;
  alu_num1 = pc;
  alu_num2 = (jtype instr).imm;
  branch_opcode = BranchOpcode.eq;
  branch_num1 = 0;
  branch_num2 = 0;
}

unfoldable pub decode_jalr : RegisterFile → ℕ → DecodeResult
decode_jalr registers instr = record no_result {
  writeback_source = RegisterSource.pc_plus_4;
  dest_register = (itype instr).rd;
  alu_opcode = AluOpcode.add;
  alu_num1 = get_register registers (itype instr).rs1;
  alu_num2 = (itype instr).imm;
  branch_opcode = BranchOpcode.eq;
  branch_num1 = 0;
  branch_num2 = 0;
}

abbrev pub memory_opcode_list : List Funct
memory_opcode_list =
    Funct.load_byte ∷ Funct.load_halfword ∷ Funct.load_word ∷ Funct.none ∷ Funct.load_byte_unsigned
    ∷ Funct.load_halfword_unsigned ∷ Funct.none ∷ Funct.none ∷ []

unfoldable pub decode_load : RegisterFile → ℕ → DecodeResult
decode_load registers instr = record no_result {
  writeback_source = RegisterSource.memory;
  dest_register = (itype instr).rd;
  alu_opcode = AluOpcode.add;
  alu_num1 = get_register registers (itype instr).rs1;
  alu_num2 = (itype instr).imm;
  memory_opcode = LoadStoreOpcode.load;
  memory_funct = get_or memory_opcode_list (itype instr).funct3 Funct.none;
}

-- The `switch` of `decode_store`.
unfoldable pub store_funct : ℕ → Funct
store_funct funct3 =
    if funct3 == 0b000
    then Funct.store_byte
    else if funct3 == 0b001
    then Funct.store_halfword
    else if funct3 == 0b010
    then Funct.store_word
    else Funct.none

unfoldable pub decode_store : RegisterFile → ℕ → DecodeResult
decode_store registers instr = record no_result {
  writeback_source = RegisterSource.none;
  alu_opcode = AluOpcode.add;
  alu_num1 = get_register registers (stype instr).rs1;
  alu_num2 = (stype instr).imm;
  memory_opcode = LoadStoreOpcode.store;
  memory_funct = store_funct (stype instr).funct3;
  memory_store_value = get_register registers (stype instr).rs2;
}

abbrev imm_opcode_list : Bool → List AluOpcode
imm_opcode_list bit30 =
    AluOpcode.add
    ∷ AluOpcode.sll
    ∷ AluOpcode.slt
    ∷ AluOpcode.sltu
    ∷ AluOpcode.xor
    ∷ (if bit30 then AluOpcode.sra else AluOpcode.srl)
    ∷ AluOpcode.or
    ∷ AluOpcode.and
    ∷ []

unfoldable pub decode_register_imm : RegisterFile → ℕ → DecodeResult
decode_register_imm registers instr = record no_result {
  writeback_source = RegisterSource.alu;
  dest_register = (itype instr).rd;
  alu_opcode = get_or (imm_opcode_list (take_bit 30 instr == 1)) (itype instr).funct3 AluOpcode.add;
  alu_num1 = get_register registers (itype instr).rs1;
  alu_num2 = (itype instr).imm;
}

abbrev rv32i_opcode_list : Bool → List AluOpcode
rv32i_opcode_list bit30 =
    (if bit30 then AluOpcode.sub else AluOpcode.add)
    ∷ AluOpcode.sll
    ∷ AluOpcode.slt
    ∷ AluOpcode.sltu
    ∷ AluOpcode.xor
    ∷ (if bit30 then AluOpcode.sra else AluOpcode.srl)
    ∷ AluOpcode.or
    ∷ AluOpcode.and
    ∷ []

abbrev rv32m_opcode_list : List AluOpcode
rv32m_opcode_list =
    AluOpcode.mul ∷ AluOpcode.mulh ∷ AluOpcode.mulhsu ∷ AluOpcode.mulhu ∷ AluOpcode.div
    ∷ AluOpcode.divu ∷ AluOpcode.rem ∷ AluOpcode.remu ∷ []

-- The `switch` on the low bits of `funct7`.
unfoldable pub register_opcode : ℕ → Bool → ℕ → Expected AluOpcode Trap
register_opcode funct7_select bit30 funct3 =
    if funct7_select == 0b000
    then ok (get_or (rv32i_opcode_list bit30) funct3 AluOpcode.add)
    else if funct7_select == 0b001
    then ok (get_or rv32m_opcode_list funct3 AluOpcode.mul)
    else if funct7_select == 0b111
    then (if funct3 == 0b101
        then ok AluOpcode.czero_eqz
        else if funct3 == 0b111
        then ok AluOpcode.czero_nez
        else unexpected illegal_instruction)
    else unexpected illegal_instruction

unfoldable pub decode_register_register : RegisterFile → ℕ → Expected DecodeResult Trap
decode_register_register registers instr =
    elim (register_opcode (slice 2 0 (rtype instr).funct7) (take_bit 30 instr == 1)
      (rtype instr).funct3) [
        | unexpected trap ↦ unexpected trap
        | ok opcode ↦ ok (record no_result {
          writeback_source = RegisterSource.alu;
          dest_register = (rtype instr).rd;
          alu_opcode = opcode;
          alu_num1 = get_register registers (rtype instr).rs1;
          alu_num2 = get_register registers (rtype instr).rs2;
        })
      ]

abbrev branch_opcode_list : List BranchOpcode
branch_opcode_list =
    BranchOpcode.eq ∷ BranchOpcode.ne ∷ BranchOpcode.none ∷ BranchOpcode.none ∷ BranchOpcode.lt
    ∷ BranchOpcode.ge ∷ BranchOpcode.ltu ∷ BranchOpcode.geu ∷ []

unfoldable pub decode_branch : RegisterFile → ℕ → ℕ → DecodeResult
decode_branch registers instr pc = record no_result {
  writeback_source = RegisterSource.none;
  alu_opcode = AluOpcode.add;
  alu_num1 = pc;
  alu_num2 = (btype instr).imm;
  branch_opcode = get_or branch_opcode_list (btype instr).funct3 BranchOpcode.none;
  branch_num1 = get_register registers (btype instr).rs1;
  branch_num2 = get_register registers (btype instr).rs2;
}

unfoldable pub decode_misc_mem : ℕ → Expected DecodeResult Trap
decode_misc_mem instr =
    if (itype instr).funct3 == 0b001
    then ok (record no_result { fencei = true })
    else unexpected illegal_instruction
