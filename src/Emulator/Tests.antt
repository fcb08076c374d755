-- ===== src/Emulator/Tests.antt =====
-- main/src/emulator.cpp: a run of three cycles under a capture mode.
use simple_riscv_emulator.Common.{◌*◌, ◌^◌, ◌≡◌, true, false, refl}
use simple_riscv_emulator.Core.Trap.{Trap, is_interrupt}
use simple_riscv_emulator.Core.Cpu.State
use simple_riscv_emulator.Core.Cpu.{step, execute, decode_stage, interrupt_stage, timer_interrupt}
use simple_riscv_emulator.Core.Decode.{decode, decode_opcode, to_opcode}
use simple_riscv_emulator.Core.Decode.Groups.{decode_register_imm}
use simple_riscv_emulator.Core.InstFetch.{fetch}
use simple_riscv_emulator.Core.InstFetch
use simple_riscv_emulator.Core.Cpu.Tests.{garbage}
use simple_riscv_emulator.Device.BlockMemory.{FillPolicy, lock}
use simple_riscv_emulator.Device.BlockMemory
use simple_riscv_emulator.Platform.{
  PlatformMemory, Randomness, read_page, get_memory, read_page_device,
}
use simple_riscv_emulator.Platform.Tests.{cpu, memory}
use simple_riscv_emulator.Emulator.{
  Emulator, TrapCaptureMode, run, captured, tick_one_cycle, is_captured,
}
use simple_riscv_emulator.Emulator.Capture.{IsLastCycle, run-exception_only}

-- A ROM of nops, and a timer interrupt that is enabled and pending.
abbrev nops : Randomness
nops = record { page = λ i k. 0x0000_0013; number = λ n. 0 }

abbrev rom_of_nops : PlatformMemory
rom_of_nops = record memory { rom = lock (BlockMemory.create (128 * 1024) FillPolicy.random) }

abbrev emulator : Emulator
emulator = record {
  cpu = record cpu {
    memory = rom_of_nops;
    csr = record cpu.csr { mie = 2 ^ 7; mip = 2 ^ 7; mstatus = record cpu.csr.mstatus { mie = 1 } };
  };
  inst_executed = 0;
  trap_capture_mode = TrapCaptureMode.exception_only;
  stop_at_infinite_loop = false;
}

stops : (run nops 3 emulator (λ _. garbage)).1 ≡ captured
unfolding run tick_one_cycle step execute fetch State.create InstFetch.is_hit InstFetch.fill
    read_page get_memory lock BlockMemory.create read_page_device BlockMemory.read_page decode_stage
    decode BlockMemory.touch_page BlockMemory.update BlockMemory.new_page interrupt_stage
    timer_interrupt is_captured decode_opcode to_opcode decode_register_imm is_interrupt
stops = refl

run-exception_only_example :
    (t : Trap) × IsLastCycle nops (run nops 3 emulator (λ _. garbage)).0 (λ _. garbage) t
    × (is_interrupt t ≡ true)
run-exception_only_example = run-exception_only nops 3 emulator (λ _. garbage) refl stops
