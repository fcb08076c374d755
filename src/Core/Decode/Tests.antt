-- ===== src/Core/Decode/Tests.antt =====
-- lib/core/decode.cpp: a store, and a word that is no instruction.
use simple_riscv_emulator.Common.{◌≡◌, refl, arith, ok, unexpected, true}
use simple_riscv_emulator.Bitset.{sext}
use simple_riscv_emulator.Core.Trap.{illegal_instruction}
use simple_riscv_emulator.Core.RegisterFile.{init}
use simple_riscv_emulator.Core.RegisterFile.Laws.{init-IsValid}
use simple_riscv_emulator.Core.Decode.Result.{no_result}
use simple_riscv_emulator.Core.Decode.System.{decode_system, decode_environment}
use simple_riscv_emulator.Core.Inst.{itype}
use simple_riscv_emulator.Core.Decode.{decode, decode_opcode, to_opcode}
use simple_riscv_emulator.Core.Decode.Laws.{IsDecoded, decode-IsDecoded}

decode-ecall : decode init 0x73 0 ≡ ok (record no_result { ecall = true })
unfolding decode decode_opcode to_opcode decode_system decode_environment itype sext
decode-ecall = refl

decode-IsDecoded_example : IsDecoded (record no_result { ecall = true })
decode-IsDecoded_example =
    decode-IsDecoded init init-IsValid 0x73 0 (record no_result { ecall = true }) (omega arith)
      decode-ecall

compressed : decode init 0x4501 0 ≡ unexpected illegal_instruction
unfolding decode
compressed = refl
