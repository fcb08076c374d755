-- ===== src/Core/Decode.antt =====
-- lib/core/decode.cpp: `Inst_decode_module`, from an instruction word to what the CPU's modules
-- are to do.
pub mod Result
pub mod Groups
pub mod System
pub mod Laws
mod Tests
use simple_riscv_emulator.Common.{ℕ, Option, some, ◌==◌, if◌then◌else◌, Expected, ok, unexpected}
use simple_riscv_emulator.Bitset.{slice}
use simple_riscv_emulator.Core.RegisterFile.{RegisterFile}
use simple_riscv_emulator.Core.Trap.{Trap, illegal_instruction}
use Result.{DecodeResult}
use Groups.{
  decode_lui, decode_auipc, decode_jal, decode_jalr, decode_load, decode_store, decode_register_imm,
  decode_register_register, decode_branch, decode_misc_mem,
}
use System.{decode_system}

-- `Opcode`.
pub data Opcode : Type 0 where
  lui auipc jal jalr branch load store reg_imm_arithmetic reg_reg_arithmetic misc_mem : Opcode
  system : Opcode

-- `static_cast<Opcode>`, in the order of the enumerators; a number without one has none.
unfoldable pub to_opcode : ℕ → Option Opcode
to_opcode n =
    if n == 0b01101
    then some Opcode.lui
    else if n == 0b00101
    then some Opcode.auipc
    else if n == 0b11011
    then some Opcode.jal
    else if n == 0b11001
    then some Opcode.jalr
    else if n == 0b11000
    then some Opcode.branch
    else if n == 0b00000
    then some Opcode.load
    else if n == 0b01000
    then some Opcode.store
    else if n == 0b00100
    then some Opcode.reg_imm_arithmetic
    else if n == 0b01100
    then some Opcode.reg_reg_arithmetic
    else if n == 0b00011
    then some Opcode.misc_mem
    else if n == 0b11100
    then some Opcode.system
    else Option.none

-- The `switch` on the opcode.
unfoldable pub decode_opcode : Option Opcode → RegisterFile → ℕ → ℕ → Expected DecodeResult Trap
decode_opcode (some Opcode.lui) registers instr pc = ok (decode_lui instr)
decode_opcode (some Opcode.auipc) registers instr pc = ok (decode_auipc instr pc)
decode_opcode (some Opcode.jal) registers instr pc = ok (decode_jal instr pc)
decode_opcode (some Opcode.jalr) registers instr pc = ok (decode_jalr registers instr)
decode_opcode (some Opcode.load) registers instr pc = ok (decode_load registers instr)
decode_opcode (some Opcode.store) registers instr pc = ok (decode_store registers instr)
decode_opcode (some Opcode.reg_imm_arithmetic) registers instr pc =
    ok (decode_register_imm registers instr)
decode_opcode (some Opcode.reg_reg_arithmetic) registers instr pc =
    decode_register_register registers instr
decode_opcode (some Opcode.branch) registers instr pc = ok (decode_branch registers instr pc)
decode_opcode (some Opcode.misc_mem) registers instr pc = decode_misc_mem instr
decode_opcode (some Opcode.system) registers instr pc = decode_system registers instr
decode_opcode Option.none registers instr pc = unexpected illegal_instruction

-- `Inst_decode_module::operator()`.
unfoldable pub decode : RegisterFile → ℕ → ℕ → Expected DecodeResult Trap
decode registers instr pc =
    if slice 1 0 instr == 0b11
    then decode_opcode (to_opcode (slice 6 2 instr)) registers instr pc
    else unexpected illegal_instruction
