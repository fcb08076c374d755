-- ===== src/Core/NativeMath/Tests.antt =====
-- lib/core/alu.cpp: runs of `native_math`, and the laws of it at concrete operands.
use simple_riscv_emulator.Common.{◌+◌, ◌*◌, ◌≡◌, arith, refl, u32}
use simple_riscv_emulator.Core.NativeMath.{mulh, div, rem}
use simple_riscv_emulator.Core.NativeMath.Division.{div-rem}

mulh-minus_one : mulh 0xffff_ffff 0xffff_ffff ≡ 0xffff_fffe
unfolding mulh
mulh-minus_one = refl

div-rem_example : u32 (div 0xffff_fff9 2 * 2 + rem 0xffff_fff9 2) ≡ 0xffff_fff9
div-rem_example = div-rem 0xffff_fff9 2 (omega arith) (omega arith)
