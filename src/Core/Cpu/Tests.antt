-- ===== src/Core/Cpu/Tests.antt =====
-- lib/core/cpu.cpp: a step on a memory that holds no instruction, so that it traps.
use simple_riscv_emulator.Common.{
  ℕ, if◌then◌else◌, ltb, ap, ◌≡◌, ◌≢◌, refl, arith, true, some, none,
}
use simple_riscv_emulator.Core.Trap.{illegal_instruction, is_interrupt}
use simple_riscv_emulator.Core.Decode.{decode}
use simple_riscv_emulator.Core.InstFetch.{Cache, fetch, fill, is_hit}
use simple_riscv_emulator.Core.InstFetch
use simple_riscv_emulator.Core.RegisterFile.Laws.{init-IsValid}
use simple_riscv_emulator.Core.Cpu.State.{Cpu, Uninit, CpuResult, create, new_result}
use simple_riscv_emulator.Core.Cpu.PreciseTrap.{IsUntouched, execute-trap}
use simple_riscv_emulator.Core.Cpu.TrapEntry.{IsTrapped, step-IsTrapped}
use simple_riscv_emulator.Core.Cpu.TrapReturn.{mret_word, step_mret-IsTrapped}
use simple_riscv_emulator.Core.Cpu.HandleTrap.{handle_trap, take_trap, trap_csr, trap_vector}
use simple_riscv_emulator.Core.Outcome.{Outcome, returns}
use simple_riscv_emulator.Core.Cpu.Total.{step-some}
use simple_riscv_emulator.Core.Cpu.Valid.{IsValid}
use simple_riscv_emulator.Core.Cpu.Invariant.{IsUninit}
use simple_riscv_emulator.Core.Cpu.Preserved.{Reaches, Reaches-IsValid}
use simple_riscv_emulator.Device.BlockMemory.Contents.{page}
use simple_riscv_emulator.Device.BlockMemory.Words.{HoldsWords, block_memory-ReadsWords}
use simple_riscv_emulator.Core.Cpu.{execute, step, decode_stage, finish_step}
use simple_riscv_emulator.Device.BlockMemory
use simple_riscv_emulator.Device.BlockMemory.{
  BlockMemory, Page, FillPolicy, read_page, touch_page, new_page,
}
use simple_riscv_emulator.Device.BlockMemory.Interface.{block_memory}
use simple_riscv_emulator.Device.BlockMemory.Supported.{write-supported, read_page-supported}
use simple_riscv_emulator.Device.BlockMemory.Tests.{no_random, small}

abbrev cpu : Cpu BlockMemory
cpu = create 4096 small

abbrev pub garbage : Uninit
garbage = record {
  alu_result = 17;
  branch_result = true;
  csr_result = 18;
  memory_load_value = 19;
  writeback_value = 20;
}

abbrev illegal : CpuResult
illegal = record (new_result garbage) {
  pc = 4096;
  inst = 0xcdcd_cdcd;
  trap = some illegal_instruction;
}

execute-illegal : (execute (block_memory no_random) cpu garbage).1 ≡ some illegal
unfolding execute create fetch fill is_hit decode_stage decode BlockMemory.create read_page
    touch_page new_page InstFetch.update BlockMemory.update
execute-illegal = refl

step-illegal : (step (block_memory no_random) cpu garbage).1 ≡ some illegal
unfolding step execute create fetch fill is_hit decode_stage decode BlockMemory.create read_page
    touch_page new_page InstFetch.update BlockMemory.update
step-illegal = refl

execute-trap_example : IsUntouched cpu (execute (block_memory no_random) cpu garbage).0
unfolding create new_result
execute-trap_example =
    execute-trap (block_memory no_random) cpu garbage illegal illegal_instruction init-IsValid
      (omega arith) execute-illegal refl

trapped : IsTrapped cpu (step (block_memory no_random) cpu garbage).0 illegal_instruction
unfolding create new_result
trapped =
    step-IsTrapped (block_memory no_random) cpu garbage illegal illegal_instruction init-IsValid
      (omega arith) (omega arith) step-illegal refl

step-IsTrapped_example :
    IsTrapped cpu (step (block_memory no_random) cpu garbage).0 illegal_instruction
unfolding create new_result
step-IsTrapped_example =
    step-IsTrapped (block_memory no_random) cpu garbage illegal illegal_instruction init-IsValid
      (omega arith) (omega arith) step-illegal refl

step-some_example : (step (block_memory no_random) cpu garbage).1 ≢ none
unfolding create
step-some_example =
    step-some (block_memory no_random) cpu garbage (write-supported no_random)
      (read_page-supported no_random small 4096) init-IsValid (omega arith)

small-HoldsWords : HoldsWords no_random small
unfolding BlockMemory.create new_page page
small-HoldsWords i k = omega arith

garbage-IsUninit : IsUninit garbage
garbage-IsUninit = record {
  alu_result = omega arith;
  csr_result = omega arith;
  writeback_value = omega arith;
}

Reaches-IsValid_example :
    IsValid (HoldsWords no_random) (step (block_memory no_random) cpu garbage).0
Reaches-IsValid_example =
    Reaches-IsValid (HoldsWords no_random) (block_memory no_random) 4096 small
      (step (block_memory no_random) cpu garbage).0 (block_memory-ReadsWords no_random)
      (omega arith) small-HoldsWords
      (Reaches.then_step cpu cpu garbage garbage-IsUninit (Reaches.start cpu))

-- Words of mret from 0 on, the reset value of mtvec, and zeros, which are no instruction, from 4096
-- on.
abbrev mrets : ℕ → Page
mrets i j = if ltb j 1024 then mret_word else 0

abbrev handled : Cpu BlockMemory
handled = create 4096 (BlockMemory.create 8192 FillPolicy.random)

abbrev zero_word : CpuResult
zero_word = record (new_result garbage) { pc = 4096; inst = 0; trap = some illegal_instruction }

step-zero_word : (step (block_memory mrets) handled garbage).1 ≡ some zero_word
unfolding step execute create fetch fill is_hit decode_stage decode BlockMemory.create read_page
    touch_page new_page InstFetch.update BlockMemory.update
step-zero_word = refl

abbrev in_handler : Cpu BlockMemory
in_handler = (step (block_memory mrets) handled garbage).0

handled_trap : IsTrapped handled in_handler illegal_instruction
unfolding create new_result
handled_trap =
    step-IsTrapped (block_memory mrets) handled garbage zero_word illegal_instruction init-IsValid
      (omega arith) (omega arith) step-zero_word refl

abbrev fetched : BlockMemory × Cache × Outcome ℕ
fetched = fetch (block_memory mrets) in_handler.memory in_handler.inst_fetch in_handler.pc

fetched_mret : fetched.2 ≡ returns mret_word
unfolding step execute create fetch fill is_hit decode_stage decode BlockMemory.create read_page
    touch_page new_page InstFetch.update BlockMemory.update finish_step handle_trap take_trap
    trap_csr trap_vector is_interrupt
fetched_mret = refl

step_mret-IsTrapped_example :
    let after = (step (block_memory mrets) in_handler garbage).0 in
    (after.pc ≡ 4096)
    × (after.csr.mstatus.mie ≡ handled.csr.mstatus.mie)
    × (after.registers ≡ handled.registers)
unfolding create
step_mret-IsTrapped_example =
    step_mret-IsTrapped (block_memory mrets) handled in_handler illegal_instruction garbage
      fetched.0 fetched.1 handled_trap (ap (λ o. (fetched.0, fetched.1, o)) fetched_mret)
