-- ===== src/Core/Decode/System.antt =====
-- lib/core/decode.cpp: `decode_system`, the environment calls and the control register accesses.
use simple_riscv_emulator.Common.{
  ℕ, ◌||◌, Bool, true, ◌==◌, not, if◌then◌else◌, u16, Expected, ok, unexpected,
}
use simple_riscv_emulator.Bitset.{slice, take_bit, sext}
use simple_riscv_emulator.Core.Csr.{WriteMode}
use simple_riscv_emulator.Core.RegisterFile.{RegisterFile, get_register}
use simple_riscv_emulator.Core.Trap.{Trap, illegal_instruction}
use simple_riscv_emulator.Core.Inst.{Itype, itype}
use simple_riscv_emulator.Core.Decode.Result.{RegisterSource, DecodeResult, no_result}

-- `funct3 == 0b000`.
unfoldable pub decode_environment : Itype → Expected DecodeResult Trap
decode_environment i =
    if u16 i.imm == 0b0000_0000_0000
    then ok (record no_result { ecall = true })
    else if u16 i.imm == 0b0011_0000_0010
    then ok (record no_result { mret = true })
    else unexpected illegal_instruction

-- The first `switch`: which values of `funct3` name an access.
unfoldable pub is_csr_access : ℕ → Bool
is_csr_access funct3 =
    funct3 == 0b001
    || funct3 == 0b010
    || funct3 == 0b011
    || funct3 == 0b101
    || funct3 == 0b110
    || funct3 == 0b111

-- `write_value` of the access; the immediate of the `i` forms is sign-extended.
unfoldable pub csr_write_value : RegisterFile → Itype → ℕ
csr_write_value registers i =
    if take_bit 2 i.funct3 == 1 then sext 5 32 i.rs1 else get_register registers i.rs1

-- The second `switch`: the write mode if there is a write, and whether the register is read.
unfoldable pub csr_mode : ℕ → Bool → Bool → Expected (WriteMode × Bool) Trap
csr_mode select csr_do_write rd_nonzero =
    if select == 0b01
    then ok (if csr_do_write then WriteMode.overwrite else WriteMode.none, rd_nonzero)
    else if select == 0b10
    then ok (if csr_do_write then WriteMode.set else WriteMode.none, true)
    else if select == 0b11
    then ok (if csr_do_write then WriteMode.clear else WriteMode.none, true)
    else unexpected illegal_instruction

unfoldable pub decode_csr : RegisterFile → Itype → Expected DecodeResult Trap
decode_csr registers i =
    if is_csr_access i.funct3
    then elim (csr_mode (slice 1 0 i.funct3) (not (i.rs1 == 0)) (not (i.rd == 0))) [
      | unexpected trap ↦ unexpected trap
      | ok (mode, read) ↦ ok (record no_result {
        writeback_source = RegisterSource.csr;
        dest_register = i.rd;
        csr_access_info = record {
          write_mode = mode;
          address = slice 11 0 i.imm;
          write_value = csr_write_value registers i;
          read = read;
        };
      })
    ]
    else unexpected illegal_instruction

unfoldable pub decode_system : RegisterFile → ℕ → Expected DecodeResult Trap
decode_system registers instr =
    if (itype instr).funct3 == 0b000
    then decode_environment (itype instr)
    else decode_csr registers (itype instr)
