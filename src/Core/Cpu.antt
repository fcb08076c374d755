-- ===== src/Core/Cpu.antt =====
-- lib/core/cpu.cpp: `CPU_module`. A step that throws `std::logic_error` has no result; the state is
-- then what the step had reached.
pub mod State
pub mod HandleTrap
pub mod PreciseTrap
pub mod TrapEntry
pub mod TrapReturn
pub mod Total
pub mod Valid
pub mod Writeback
pub mod Invariant
pub mod Preserved
pub mod Tests
use simple_riscv_emulator.Common.{
  ℕ, ◌+◌, ◌^◌, Bool, true, false, not, ◌&&◌, Option, some, ◌==◌, if◌then◌else◌, bit_and, u32,
  Expected, ok, unexpected,
}
use simple_riscv_emulator.Core.Trap.{
  Trap, illegal_instruction, env_call_from_m_mode, machine_timer_interrupt,
}
use simple_riscv_emulator.Core.Outcome.{Outcome, returns, traps, throws}
use simple_riscv_emulator.Core.Alu.{alu, branch}
use simple_riscv_emulator.Core.Csr.{Csr, CsrError, access, tick}
use simple_riscv_emulator.Core.RegisterFile.{RegisterFile, set_register}
use simple_riscv_emulator.Core.Memory.{MemoryInterface}
use simple_riscv_emulator.Core.LoadStore.{load_store}
use simple_riscv_emulator.Core.InstFetch.{fetch}
use simple_riscv_emulator.Core.Decode.Result.{RegisterSource, DecodeResult}
use simple_riscv_emulator.Core.Decode.{decode}
use State.{Cpu, Uninit, CpuResult, new_result}
use HandleTrap.{handle_trap}

abbrev pub trapped : CpuResult → Trap → CpuResult
trapped r trap = record r { trap = some trap }

-- The value that the `switch` on the source stores, if any.
unfoldable pub writeback_value : RegisterSource → CpuResult → ℕ → ℕ
writeback_value RegisterSource.none r pc = r.writeback_value
writeback_value RegisterSource.pc_plus_4 r pc = u32 (pc + 4)
writeback_value RegisterSource.alu r pc = r.alu_result
writeback_value RegisterSource.memory r pc = r.memory_load_value
writeback_value RegisterSource.csr r pc = r.csr_result

-- Whether the timer interrupt is enabled and pending; other interrupts are not looked at.
unfoldable pub timer_interrupt : Csr → Bool
timer_interrupt c = not (c.mstatus.mie == 0) && not (bit_and (bit_and c.mip c.mie) (2 ^ 7) == 0)

-- `csr.mstatus.mie = csr.mstatus.mpie; csr.mstatus.mpie = false;`.
unfoldable pub leave_trap : Csr → Csr
leave_trap c = record c { mstatus = record c.mstatus { mie = c.mstatus.mpie; mpie = 0 } }

module _ {S : Type 0} where
  -- The next `pc`, and the control registers after a return from a trap.
  unfoldable pub next_pc : Cpu S → CpuResult → Cpu S
  next_pc c r =
      if r.mret
      then record c { pc = c.csr.mepc; csr = leave_trap c.csr }
      else if r.branch_result
      then record c { pc = r.alu_result }
      else record c { pc = u32 (c.pc + 4) }

  unfoldable pub writeback : Cpu S → CpuResult → Cpu S × CpuResult
  writeback c r =
      let r' = record r { writeback_value = writeback_value r.writeback_source r c.pc } in
      let registers =
        if r'.dest_register == 0
        then c.registers
        else set_register c.registers r'.dest_register r'.writeback_value in
      (next_pc (record c { registers = registers }) r', r')

  module _ (m : MemoryInterface S) where
    -- From the memory access on.
    unfoldable pub memory_stage : Cpu S → CpuResult → Cpu S × Option CpuResult
    memory_stage c r =
        let (s, o) =
          load_store m c.memory r.memory_opcode r.memory_funct r.alu_result r.memory_store_value in
        let c' = record c { memory = s } in
        elim o [
          | throws ↦ (c', Option.none)
          | traps trap ↦ (c', some (trapped r trap))
          | returns v ↦
              (let (c'', r') = writeback c' (record r { memory_load_value = v }) in (c'', some r'))
        ]

    -- The arithmetic, the branch test and the control registers, then the rest.
    unfoldable pub run_stage : Cpu S → CpuResult → Cpu S × Option CpuResult
    run_stage c r =
        let a = alu r.alu_opcode r.alu_num1 r.alu_num2 in
        let b = branch r.branch_opcode r.branch_num1 r.branch_num2 in
        let (csr, o) = access c.csr r.csr_access_info in
        let c' = record c { csr = csr } in
        let r' = record r { alu_result = a; branch_result = b } in
        elim o [
          | unexpected e ↦ (c', some (trapped r' illegal_instruction))
          | ok v ↦ memory_stage c' (record r' { csr_result = v })
        ]

    -- An environment call or an interrupt, or else the instruction.
    unfoldable pub interrupt_stage : Cpu S → CpuResult → Cpu S × Option CpuResult
    interrupt_stage c r =
        if r.ecall
        then (c, some (trapped r env_call_from_m_mode))
        else if timer_interrupt c.csr
        then (c, some (trapped r machine_timer_interrupt))
        else run_stage c r

    unfoldable pub decode_stage : Cpu S → CpuResult → Cpu S × Option CpuResult
    decode_stage c r = elim (decode c.registers r.inst c.pc) [
      | unexpected trap ↦ (c, some (trapped r trap))
      | ok d ↦ interrupt_stage c (record r { decoded = d })
    ]

    -- `CPU_module::execute`.
    unfoldable pub execute : Cpu S → Uninit → Cpu S × Option CpuResult
    execute c u =
        let r = record (new_result u) { pc = c.pc } in
        let (s, cache, o) = fetch m c.memory c.inst_fetch c.pc in
        let c' = record c { memory = s; inst_fetch = cache } in
        elim o [
          | throws ↦ (c', Option.none)
          | traps trap ↦ (c', some (trapped r trap))
          | returns inst ↦ decode_stage c' (record r { inst = inst })
        ]

    -- What `step` does after `execute`.
    unfoldable pub finish_step : Cpu S → CpuResult → Cpu S
    finish_step c r = let c' = handle_trap c r in record c' { csr = tick c'.csr }

    -- `CPU_module::step`.
    unfoldable pub step : Cpu S → Uninit → Cpu S × Option CpuResult
    step c u =
        let (c', o) = execute c u in
        elim o [ Option.none ↦ (c', Option.none) | some r ↦ (finish_step c' r, some r) ]
