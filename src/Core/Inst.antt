-- ===== src/Core/Inst.antt =====
-- lib/include/core/inst.hpp: the fields of the six instruction formats.
pub mod Immediates
pub mod RoundTrip
mod Tests
use simple_riscv_emulator.Common.{ℕ, ◌+◌}
use simple_riscv_emulator.Bitset.{slice, take_bit, concat, sext, zeros}

pub record Rtype : Type 0 where
  pub funct7 : ℕ
  pub rs2 : ℕ
  pub rs1 : ℕ
  pub funct3 : ℕ
  pub rd : ℕ

pub record Itype : Type 0 where
  pub imm : ℕ
  pub rs1 : ℕ
  pub funct3 : ℕ
  pub rd : ℕ

pub record Stype : Type 0 where
  pub imm : ℕ
  pub rs1 : ℕ
  pub rs2 : ℕ
  pub funct3 : ℕ

pub record Btype : Type 0 where
  pub imm : ℕ
  pub rs1 : ℕ
  pub rs2 : ℕ
  pub funct3 : ℕ

pub record Utype : Type 0 where
  pub imm : ℕ
  pub rd : ℕ

pub record Jtype : Type 0 where
  pub imm : ℕ
  pub rd : ℕ

unfoldable pub rtype : ℕ → Rtype
rtype instr = record {
  funct7 = slice 31 25 instr;
  rs2 = slice 24 20 instr;
  rs1 = slice 19 15 instr;
  funct3 = slice 14 12 instr;
  rd = slice 11 7 instr;
}

unfoldable pub itype : ℕ → Itype
itype instr = record {
  imm = sext 12 32 (slice 31 20 instr);
  rs1 = slice 19 15 instr;
  funct3 = slice 14 12 instr;
  rd = slice 11 7 instr;
}

unfoldable pub stype : ℕ → Stype
stype instr = record {
  imm = sext 12 32 (concat 7 5 (slice 31 25 instr) (slice 11 7 instr));
  rs1 = slice 19 15 instr;
  rs2 = slice 24 20 instr;
  funct3 = slice 14 12 instr;
}

-- `operator+` is left associative: sign, bit 7, bits 30 to 25, bits 11 to 8, and a 0.
unfoldable pub btype : ℕ → Btype
btype instr =
    let signed = concat 1 1 (take_bit 31 instr) (take_bit 7 instr) in
    let upper = concat 2 6 signed (slice 30 25 instr) in
    let lower = concat 8 4 upper (slice 11 8 instr) in
    record {
      imm = sext 13 32 (concat 12 1 lower (zeros 1));
      rs1 = slice 19 15 instr;
      rs2 = slice 24 20 instr;
      funct3 = slice 14 12 instr;
    }

unfoldable pub utype : ℕ → Utype
utype instr = record { imm = concat 20 12 (slice 31 12 instr) (zeros 12); rd = slice 11 7 instr }

unfoldable pub jtype : ℕ → Jtype
jtype instr =
    let upper = concat 1 8 (take_bit 31 instr) (slice 19 12 instr) in
    let middle = concat 9 1 upper (take_bit 20 instr) in
    let lower = concat 10 10 middle (slice 30 21 instr) in
    record { imm = sext 21 32 (concat 20 1 lower (zeros 1)); rd = slice 11 7 instr }
