-- ===== src/Core/Inst/Tests.antt =====
-- lib/include/core/inst.hpp: instruction words that are put together and taken apart.
use simple_riscv_emulator.Common.{◌≡◌, arith, refl}
use simple_riscv_emulator.Core.Inst.{Rtype, Itype, Stype, Btype, Utype, Jtype, rtype, btype, utype}
use simple_riscv_emulator.Core.Inst.RoundTrip.{
  encode_r, encode_i, encode_b, encode_u, rtype-encode, btype-encode, utype-encode,
}

-- addi x1, x2, -1
abbrev minus_one : Itype
minus_one = record { imm = 0xffff_ffff; rs1 = 2; funct3 = 0; rd = 1 }

-- sw x3, -4(x2)
abbrev store_below : Stype
store_below = record { imm = 0xffff_fffc; rs1 = 2; rs2 = 3; funct3 = 2 }

-- bne x1, x2, -8
abbrev branch_back : Btype
branch_back = record { imm = 0xffff_fff8; rs1 = 1; rs2 = 2; funct3 = 1 }

-- jal x1, 2048
abbrev jump_ahead : Jtype
jump_ahead = record { imm = 2048; rd = 1 }

-- sub x1, x2, x3
abbrev subtract : Rtype
subtract = record { funct7 = 32; rs2 = 3; rs1 = 2; funct3 = 0; rd = 1 }

-- lui x1, 0x12345
abbrev upper : Utype
upper = record { imm = 0x1234_5000; rd = 1 }

encode-minus_one : encode_i minus_one 0b001_0011 ≡ 0xfff1_0093
encode-minus_one = refl

rtype-encode_example : rtype (encode_r subtract 0b011_0011) ≡ subtract
rtype-encode_example = rtype-encode 0b011_0011 (omega arith) subtract record {
  funct7 = omega arith;
  rs2 = omega arith;
  rs1 = omega arith;
  funct3 = omega arith;
  rd = omega arith;
}

btype-encode_example : btype (encode_b branch_back 0b110_0011) ≡ branch_back
btype-encode_example = btype-encode 0b110_0011 (omega arith) branch_back record {
  imm = ground arith;
  even = omega arith;
  rs1 = omega arith;
  rs2 = omega arith;
  funct3 = omega arith;
}

utype-encode_example : utype (encode_u upper 0b011_0111) ≡ upper
utype-encode_example =
    utype-encode 0b011_0111 (omega arith) upper
      record { imm = omega arith; low = omega arith; rd = omega arith }
