-- ===== src/EmulatorDebug/Tests.antt =====
-- main/src/emulator-debug.cpp: commands on the platform.
use simple_riscv_emulator.Common.{false, true, [], ◌∷◌, ◌≡◌, refl, arith}
use simple_riscv_emulator.Core.Cpu.Tests.{garbage}
use simple_riscv_emulator.Platform.{interconnect}
use simple_riscv_emulator.Platform.Tests.{cpu, memory, zero_random}
use simple_riscv_emulator.Emulator.{Emulator, TrapCaptureMode}
use simple_riscv_emulator.GdbStub.Response.{error_code, ok_response}
use simple_riscv_emulator.EmulatorDebug.{find_watchpoint}
use simple_riscv_emulator.EmulatorDebug.MemoryHandlers.{handle_mem_write}
use simple_riscv_emulator.EmulatorDebug.PointHandlers.{
  handle_add_watchpoint, handle_remove_watchpoint,
}
use simple_riscv_emulator.EmulatorDebug.RunHandlers.{run_steps}
use simple_riscv_emulator.EmulatorDebug.Unaligned.{handle_mem_write-error}
use simple_riscv_emulator.EmulatorDebug.Points.{handle_remove_watchpoint-handle_add_watchpoint}
use simple_riscv_emulator.EmulatorDebug.Quiet.{without_points, ticks, end_of_steps, run_steps-ticks}

abbrev emulator : Emulator
emulator = record {
  cpu = cpu;
  inst_executed = 0;
  trap_capture_mode = TrapCaptureMode.no_capture;
  stop_at_infinite_loop = false;
}

handle_mem_write-error_example :
    (handle_mem_write (interconnect zero_random) memory 0x8000_0000 (1 ∷ 2 ∷ [])).1 ≡ error_code 0
handle_mem_write-error_example =
    handle_mem_write-error zero_random memory 0x8000_0000 1 2 [] (omega arith)

handle_remove_watchpoint-handle_add_watchpoint_example :
    ((handle_add_watchpoint (without_points emulator) true false 0x8000_0000 4).1 ≡ ok_response)
    × (handle_remove_watchpoint
          (handle_add_watchpoint (without_points emulator) true false 0x8000_0000 4).0
          0x8000_0000
          4
        ≡ (without_points emulator, ok_response))
unfolding find_watchpoint
handle_remove_watchpoint-handle_add_watchpoint_example =
    handle_remove_watchpoint-handle_add_watchpoint (without_points emulator) true false 0x8000_0000
      4 (omega arith) refl refl

run_steps-ticks_example :
    run_steps zero_random 8 3 (without_points emulator) (λ _. garbage) (λ _. false) ≡ (
      without_points (ticks zero_random 3 emulator (λ _. garbage)).0,
      end_of_steps (ticks zero_random 3 emulator (λ _. garbage)).1,
    )
run_steps-ticks_example = run_steps-ticks zero_random 8 3 emulator (λ _. garbage)
