-- ===== src/Core/Cpu/TrapReturn.antt =====
-- lib/core/cpu.cpp: the cycle that executes an mret.
use simple_riscv_emulator.Common.{ℕ, true, false, Option, none, some, ok, ◌≡◌, refl, ap, ◌∙◌}
use simple_riscv_emulator.Core.Trap.{Trap}
use simple_riscv_emulator.Core.Outcome.{Outcome, returns, traps, throws}
use simple_riscv_emulator.Core.Alu.{alu, branch}
use simple_riscv_emulator.Core.Csr.{Csr, access, tick}
use simple_riscv_emulator.Core.Memory.{MemoryInterface}
use simple_riscv_emulator.Core.LoadStore.{load_store}
use simple_riscv_emulator.Core.InstFetch.{Cache, fetch}
use simple_riscv_emulator.Core.RegisterFile.{RegisterFile}
use simple_riscv_emulator.Core.Decode.Result.{no_result}
use simple_riscv_emulator.Core.Decode.System.{decode_system, decode_environment}
use simple_riscv_emulator.Core.Decode.{decode, decode_opcode, to_opcode}
use simple_riscv_emulator.Core.Inst.{itype}
use simple_riscv_emulator.Bitset.{sext}
use simple_riscv_emulator.Core.Cpu.State.{Cpu, Uninit, CpuResult, new_result}
use simple_riscv_emulator.Core.Cpu.HandleTrap.{handle_trap}
use simple_riscv_emulator.Core.Cpu.TrapEntry.{IsTrapped}
use simple_riscv_emulator.Core.Cpu.{
  execute, step, finish_step, next_pc, leave_trap, decode_stage, interrupt_stage, run_stage,
  memory_stage, writeback, timer_interrupt, writeback_value, trapped,
}

-- The instruction word of mret.
abbrev pub mret_word : ℕ
mret_word = 0x3020_0073

decode-mret :
    (registers : RegisterFile) (pc : ℕ)
    → decode registers mret_word pc ≡ ok (record no_result { mret = true })
unfolding decode decode_opcode to_opcode decode_system itype decode_environment sext
decode-mret registers pc = refl

-- The result of the instruction.
done : CpuResult → CpuResult
done r = record r {
  decoded = record no_result { mret = true };
  alu_result = alu no_result.alu_opcode 0 0;
  branch_result = branch no_result.branch_opcode 0 0;
  csr_result = 0;
  memory_load_value = 0;
}

module _ {S : Type 0} (m : MemoryInterface S) where
  timer_interrupt_off : (c : Csr) → c.mstatus.mie ≡ 0 → timer_interrupt c ≡ false
  unfolding timer_interrupt
  timer_interrupt_off c z = rw (timer_interrupt, z) refl

  run_stage-mret :
      (c : Cpu S) (r : CpuResult)
      → run_stage m c (record r { decoded = record no_result { mret = true } })
        ≡ (record c { pc = c.csr.mepc; csr = leave_trap c.csr }, some (done r))
  unfolding run_stage access memory_stage load_store writeback writeback_value next_pc done
  run_stage-mret c r = refl

  decode_stage-mret :
      (c : Cpu S) (r : CpuResult)
      → c.csr.mstatus.mie ≡ 0
      → decode_stage m c (record r { inst = mret_word }) ≡ (
        record c { pc = c.csr.mepc; csr = leave_trap c.csr },
        some (done (record r { inst = mret_word })),
      )
  unfolding decode_stage interrupt_stage
  decode_stage-mret c r z =
      rw (decode_stage, decode-mret c.registers c.pc, interrupt_stage, timer_interrupt_off c.csr z)
        (run_stage-mret c (record r { inst = mret_word }))

  after_fetch : Cpu S → Uninit → S × Cache × Outcome ℕ → Cpu S × Option CpuResult
  after_fetch c u (s, cache, o) =
      let r = record (new_result u) { pc = c.pc } in
      let c' = record c { memory = s; inst_fetch = cache } in
      elim o [
        | throws ↦ (c', none)
        | traps trap ↦ (c', some (trapped r trap))
        | returns inst ↦ decode_stage m c' (record r { inst = inst })
      ]

  after_execute : Cpu S × Option CpuResult → Cpu S × Option CpuResult
  after_execute (c, o) = elim o [ none ↦ (c, none) | some r ↦ (finish_step m c r, some r) ]

  step-mret :
      (c : Cpu S) (u : Uninit) (s : S) (cache : Cache)
      → c.csr.mstatus.mie ≡ 0
      → fetch m c.memory c.inst_fetch c.pc ≡ (s, cache, returns mret_word)
      → (step m c u).0 ≡ record c {
        memory = s;
        inst_fetch = cache;
        pc = c.csr.mepc;
        csr = tick (leave_trap c.csr);
      }
  unfolding step execute finish_step handle_trap new_result done after_fetch after_execute
  step-mret c u s cache z fetched =
      ap (λ p. (after_execute (after_fetch c u p)).0) fetched
      ∙ ap (λ p. (after_execute p).0)
          (decode_stage-mret (record c { memory = s; inst_fetch = cache })
            (record (new_result u) { pc = c.pc }) z)

  -- When the handler of a trap starts with an mret, the cycle that executes it goes back to the
  -- instruction that was trapped, with the registers and the interrupt enable bit from before the
  -- trap; a pending timer interrupt does not come in between.
  pub step_mret-IsTrapped :
      (c c' : Cpu S) (t : Trap) (u : Uninit) (s : S) (cache : Cache)
      → IsTrapped c c' t
      → fetch m c'.memory c'.inst_fetch c'.pc ≡ (s, cache, returns mret_word)
      → let after = (step m c' u).0 in
        (after.pc ≡ c.pc)
        × (after.csr.mstatus.mie ≡ c.csr.mstatus.mie)
        × (after.registers ≡ c.registers)
  unfolding tick leave_trap
  step_mret-IsTrapped c c' t u s cache h fetched =
      rw (step-mret c' u s cache h.mie fetched) (h.mepc, h.mpie, h.registers)
