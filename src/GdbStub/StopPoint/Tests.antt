-- ===== src/GdbStub/StopPoint/Tests.antt =====
-- lib/gdb-stub/stop-point.cpp: a breakpoint that asks for x5 = 0.
use simple_riscv_emulator.Common.{ℕ, ◌+◌, ◌^◌, ◌<◌, some, ◌==◌, if◌then◌else◌, false, ◌≡◌, arith}
use simple_riscv_emulator.Platform.{interconnect}
use simple_riscv_emulator.Platform.Tests.{cpu, zero_random}
use simple_riscv_emulator.GdbStub.Expression.Tree.{Expr, register, unary_op, negation, eval}
use simple_riscv_emulator.GdbStub.Expression.Compiler.{size, program}
use simple_riscv_emulator.GdbStub.StopPoint.{
  decided, access_memory, access_register, is_triggered_by,
}
use simple_riscv_emulator.GdbStub.StopPoint.Guard.{verdict_of, is_triggered_by-program}

abbrev x5_is_zero : Expr
x5_is_zero = unary_op negation (register 5)

short : size x5_is_zero < 2 ^ 16
unfolding size
short = omega arith

is_triggered_by-program_example :
    (n : ℕ) × ((rounds : ℕ)
      → is_triggered_by
          (interconnect zero_random)
          (n + rounds)
          (record { address = 0x2000_0000; cond = some (program x5_is_zero) })
          cpu
        ≡ (if cpu.pc == 0x2000_0000
            then verdict_of cpu (
                eval
                  (access_memory (interconnect zero_random))
                  (access_register (interconnect zero_random))
                  x5_is_zero
                  cpu)
            else (cpu, decided false)))
is_triggered_by-program_example =
    is_triggered_by-program (interconnect zero_random) 0x2000_0000 x5_is_zero cpu short
