-- ===== src/Core/Inst/RoundTrip.antt =====
-- The formats of `inst.hpp` take apart what the RISC-V manual's layout puts together.
use simple_riscv_emulator.Common.{ℕ, ◌+◌, ◌*◌, ◌/◌, ◌%◌, ◌^◌, ◌<◌, ◌≡◌, arith, ap, ◌∙◌}
use simple_riscv_emulator.Bitset.{sext}
use simple_riscv_emulator.Bitset.Laws.{concat-add}
use simple_riscv_emulator.Core.Inst.{
  Rtype, Itype, Stype, Btype, Utype, Jtype, rtype, itype, stype, btype, utype, jtype,
}
use simple_riscv_emulator.Core.Inst.Immediates.{
  IsSigned, sext-12, sext-13, sext-21, stype-imm, btype-imm, jtype-imm, stype_bits, btype_bits,
  jtype_bits,
}

-- The words of the manual: opcode in the low seven bits, then the fields of the format.
abbrev pub encode_r : Rtype → ℕ → ℕ
encode_r r opcode =
    r.funct7 * 2 ^ 25 + r.rs2 * 2 ^ 20 + r.rs1 * 2 ^ 15 + r.funct3 * 2 ^ 12 + r.rd * 2 ^ 7 + opcode

abbrev pub encode_i : Itype → ℕ → ℕ
encode_i i opcode =
    i.imm % 2 ^ 12 * 2 ^ 20 + i.rs1 * 2 ^ 15 + i.funct3 * 2 ^ 12 + i.rd * 2 ^ 7 + opcode

abbrev pub encode_s : Stype → ℕ → ℕ
encode_s s opcode =
    s.imm / 2 ^ 5 % 2 ^ 7 * 2 ^ 25
    + s.rs2 * 2 ^ 20
    + s.rs1 * 2 ^ 15
    + s.funct3 * 2 ^ 12
    + s.imm % 2 ^ 5 * 2 ^ 7
    + opcode

abbrev pub encode_b : Btype → ℕ → ℕ
encode_b b opcode =
    b.imm / 2 ^ 12 % 2 * 2 ^ 31
    + b.imm / 2 ^ 5 % 2 ^ 6 * 2 ^ 25
    + b.rs2 * 2 ^ 20
    + b.rs1 * 2 ^ 15
    + b.funct3 * 2 ^ 12
    + b.imm / 2 % 2 ^ 4 * 2 ^ 8
    + b.imm / 2 ^ 11 % 2 * 2 ^ 7
    + opcode

abbrev pub encode_u : Utype → ℕ → ℕ
encode_u u opcode = u.imm / 2 ^ 12 * 2 ^ 12 + u.rd * 2 ^ 7 + opcode

abbrev pub encode_j : Jtype → ℕ → ℕ
encode_j j opcode =
    j.imm / 2 ^ 20 % 2 * 2 ^ 31
    + j.imm / 2 % 2 ^ 10 * 2 ^ 21
    + j.imm / 2 ^ 11 % 2 * 2 ^ 20
    + j.imm / 2 ^ 12 % 2 ^ 8 * 2 ^ 12
    + j.rd * 2 ^ 7
    + opcode

pub record RFits (r : Rtype) : Type 0 where
  pub funct7 : r.funct7 < 2 ^ 7
  pub rs2 : r.rs2 < 32
  pub rs1 : r.rs1 < 32
  pub funct3 : r.funct3 < 8
  pub rd : r.rd < 32

pub record IFits (i : Itype) : Type 0 where
  pub imm : IsSigned 11 i.imm
  pub rs1 : i.rs1 < 32
  pub funct3 : i.funct3 < 8
  pub rd : i.rd < 32

pub record SFits (s : Stype) : Type 0 where
  pub imm : IsSigned 11 s.imm
  pub rs1 : s.rs1 < 32
  pub rs2 : s.rs2 < 32
  pub funct3 : s.funct3 < 8

-- A branch offset is even.
pub record BFits (b : Btype) : Type 0 where
  pub imm : IsSigned 12 b.imm
  pub even : b.imm % 2 ≡ 0
  pub rs1 : b.rs1 < 32
  pub rs2 : b.rs2 < 32
  pub funct3 : b.funct3 < 8

pub record UFits (u : Utype) : Type 0 where
  pub imm : u.imm < 2 ^ 32
  pub low : u.imm % 2 ^ 12 ≡ 0
  pub rd : u.rd < 32

pub record JFits (j : Jtype) : Type 0 where
  pub imm : IsSigned 20 j.imm
  pub even : j.imm % 2 ≡ 0
  pub rd : j.rd < 32

module _ (opcode : ℕ) (fits : opcode < 2 ^ 7) where
  -- An R-type word that is put together from a 7-bit opcode and fields in range is taken apart into these fields.
  pub rtype-encode : (r : Rtype) → RFits r → rtype (encode_r r opcode) ≡ r
  unfolding rtype
  rtype-encode r h =
      let w = encode_r r opcode in
      let funct7 : (rtype w).funct7 ≡ r.funct7 = omega arith in
      let rs2 : (rtype w).rs2 ≡ r.rs2 = omega arith in
      let rs1 : (rtype w).rs1 ≡ r.rs1 = omega arith in
      let funct3 : (rtype w).funct3 ≡ r.funct3 = omega arith in
      let rd : (rtype w).rd ≡ r.rd = omega arith in
      λ k. record { funct7 = funct7 k; rs2 = rs2 k; rs1 = rs1 k; funct3 = funct3 k; rd = rd k }

  -- An I-type word that is put together from a 7-bit opcode, registers, a funct3 and a signed 12-bit immediate in range
  -- is taken apart into these fields, with the immediate as a word.
  pub itype-encode : (i : Itype) → IFits i → itype (encode_i i opcode) ≡ i
  unfolding itype
  itype-encode i h =
      let w = encode_i i opcode in
      let bits : w / 2 ^ 20 % 2 ^ 12 ≡ i.imm % 2 ^ 12 = omega arith in
      let imm : (itype w).imm ≡ i.imm = ap (sext 12 32) bits ∙ sext-12 i.imm h.imm in
      let rs1 : (itype w).rs1 ≡ i.rs1 = omega arith in
      let funct3 : (itype w).funct3 ≡ i.funct3 = omega arith in
      let rd : (itype w).rd ≡ i.rd = omega arith in
      λ k. record { imm = imm k; rs1 = rs1 k; funct3 = funct3 k; rd = rd k }

  -- An S-type word that is put together from a 7-bit opcode, registers, a funct3 and a signed 12-bit immediate in range
  -- is taken apart into these fields, with the immediate as a word.
  pub stype-encode : (s : Stype) → SFits s → stype (encode_s s opcode) ≡ s
  unfolding stype
  stype-encode s h =
      let w = encode_s s opcode in
      let bits : stype_bits w ≡ s.imm % 2 ^ 12 = omega arith in
      let imm : (stype w).imm ≡ s.imm = stype-imm w ∙ ap (sext 12 32) bits ∙ sext-12 s.imm h.imm in
      let rs1 : (stype w).rs1 ≡ s.rs1 = omega arith in
      let rs2 : (stype w).rs2 ≡ s.rs2 = omega arith in
      let funct3 : (stype w).funct3 ≡ s.funct3 = omega arith in
      λ k. record { imm = imm k; rs1 = rs1 k; rs2 = rs2 k; funct3 = funct3 k }

  -- A B-type word that is put together from a 7-bit opcode, registers, a funct3 and an even signed 13-bit offset in
  -- range is taken apart into these fields, with the offset as a word.
  pub btype-encode : (b : Btype) → BFits b → btype (encode_b b opcode) ≡ b
  unfolding btype
  btype-encode b h =
      let w = encode_b b opcode in
      let bits : btype_bits w ≡ b.imm % 2 ^ 13 = omega arith in
      let imm : (btype w).imm ≡ b.imm = btype-imm w ∙ ap (sext 13 32) bits ∙ sext-13 b.imm h.imm in
      let rs1 : (btype w).rs1 ≡ b.rs1 = omega arith in
      let rs2 : (btype w).rs2 ≡ b.rs2 = omega arith in
      let funct3 : (btype w).funct3 ≡ b.funct3 = omega arith in
      λ k. record { imm = imm k; rs1 = rs1 k; rs2 = rs2 k; funct3 = funct3 k }

  -- A U-type word that is put together from a 7-bit opcode, a register and a word with twelve low zero bits is taken
  -- apart into these fields.
  pub utype-encode : (u : Utype) → UFits u → utype (encode_u u opcode) ≡ u
  unfolding utype
  utype-encode u h =
      let w = encode_u u opcode in
      let high = concat-add 20 12 (w / 2 ^ 12 % 2 ^ 20) 0 (omega arith) (omega arith) in
      let imm : (utype w).imm ≡ u.imm = omega (arith, high) in
      let rd : (utype w).rd ≡ u.rd = omega arith in λ k. record { imm = imm k; rd = rd k }

  -- A J-type word that is put together from a 7-bit opcode, a register and an even signed 21-bit offset in range is
  -- taken apart into these fields, with the offset as a word.
  pub jtype-encode : (j : Jtype) → JFits j → jtype (encode_j j opcode) ≡ j
  unfolding jtype
  jtype-encode j h =
      let w = encode_j j opcode in
      let bits : jtype_bits w ≡ j.imm % 2 ^ 21 = omega arith in
      let imm : (jtype w).imm ≡ j.imm = jtype-imm w ∙ ap (sext 21 32) bits ∙ sext-21 j.imm h.imm in
      let rd : (jtype w).rd ≡ j.rd = omega arith in λ k. record { imm = imm k; rd = rd k }
