-- ===== src/Core/Cpu/TrapEntry.antt =====
-- How a step enters a trap handler.
use simple_riscv_emulator.Common.{
  ℕ, ◌+◌, ◌*◌, ◌/◌, ◌%◌, ◌^◌, ◌<◌, ◌≡◌, refl, arith, ◌&&◌, ◌==◌, if◌then◌else◌, some, u32, u64,
  bit_and_mask, ap, ◌∙◌, Option-cases, inl, inr,
}
use simple_riscv_emulator.Core.Trap.{Trap, code, is_interrupt}
use simple_riscv_emulator.Core.Csr.{Csr, tick}
use simple_riscv_emulator.Core.Memory.{MemoryInterface}
use simple_riscv_emulator.Core.RegisterFile.Laws.{IsValid}
use simple_riscv_emulator.Core.Cpu.State.{Cpu, Uninit, CpuResult}
use simple_riscv_emulator.Core.Cpu.HandleTrap.{
  handle_trap, take_trap, trap_csr, trap_vector, enter_trap,
}
use simple_riscv_emulator.Core.Cpu.PreciseTrap.{IsUntouched, execute-trap}
use simple_riscv_emulator.Core.Cpu.{execute, step, finish_step}

-- Where the handler of a trap starts: the base address, and for an interrupt in vectored mode the
-- entry of its cause.
abbrev pub handler : ℕ → Trap → ℕ
handler mtvec t =
    if is_interrupt t && (mtvec % 4 == 1)
    then u32 (mtvec / 4 * 4 + 4 * (code t % 2 ^ 31))
    else mtvec / 4 * 4

trap_vector-handler : (c : Csr) (t : Trap) → c.mtvec < 2 ^ 32 → trap_vector c t ≡ handler c.mtvec t
unfolding trap_vector
trap_vector-handler c t h = rw (bit_and_mask 31 (code t)) (ground arith)

module _ {S : Type 0} where
  -- What a trap has done to a CPU.
  pub record IsTrapped (c c' : Cpu S) (t : Trap) : Type 0 where
    pub registers : c'.registers ≡ c.registers
    pub pc : c'.pc ≡ handler c.csr.mtvec t
    pub mepc : c'.csr.mepc ≡ c.pc
    pub mcause : c'.csr.mcause ≡ code t
    pub mie : c'.csr.mstatus.mie ≡ 0
    pub mpie : c'.csr.mstatus.mpie ≡ c.csr.mstatus.mie
    pub mpp : c'.csr.mstatus.mpp ≡ 3
    pub mcycles : c'.csr.mcycles ≡ u64 (c.csr.mcycles + 1)

  taken : Cpu S → CpuResult → Trap → Cpu S
  taken c r t = let c' = take_trap c r t in record c' { csr = tick c'.csr }

  finish_step-taken :
      (m : MemoryInterface S) (c : Cpu S) (r : CpuResult) (t : Trap)
      → r.trap ≡ some t
      → finish_step m c r ≡ taken c r t
  unfolding finish_step handle_trap taken
  finish_step-taken m c r t e = rw e refl

  taken-IsTrapped :
      (c : Cpu S) (r : CpuResult) (t : Trap) → c.csr.mtvec < 2 ^ 32 → IsTrapped c (taken c r t) t
  unfolding taken take_trap trap_csr tick enter_trap
  taken-IsTrapped c r t lt = record {
    registers = refl;
    pc = trap_vector-handler (trap_csr c.csr c.pc t r) t lt;
    mepc = refl;
    mcause = refl;
    mie = refl;
    mpie = refl;
    mpp = refl;
    mcycles = refl;
  }

  IsTrapped-IsUntouched :
      (c0 c c' : Cpu S) (t : Trap) → IsUntouched c0 c → IsTrapped c c' t → IsTrapped c0 c' t
  IsTrapped-IsUntouched c0 c c' t same h = record {
    registers = h.registers ∙ same.same_registers;
    pc = h.pc ∙ ap (λ v. handler v.mtvec t) same.same_csr;
    mepc = h.mepc ∙ same.same_pc;
    mcause = h.mcause;
    mie = h.mie;
    mpie = h.mpie ∙ ap (λ v. v.mstatus.mie) same.same_csr;
    mpp = h.mpp;
    mcycles = h.mcycles ∙ ap (λ v. u64 (v.mcycles + 1)) same.same_csr;
  }

  step-finish_step :
      (m : MemoryInterface S) (c : Cpu S) (u : Uninit) (r : CpuResult)
      → (step m c u).1 ≡ some r
      → ((execute m c u).1 ≡ some r) × (step m c u ≡ (finish_step m (execute m c u).0 r, some r))
  unfolding step
  step-finish_step m c u r e = elim (Option-cases (execute m c u).1) [
    | inl thrown ↦ absurd (ground (arith, e, thrown))
    | inr (r', returned) ↦
        let same : r' ≡ r = ground (arith, e, returned) in
        (returned ∙ ap some same, rw (step, returned, same) refl)
  ]

  -- If a step from a valid register file with words as pc and mtvec has a trap as its result, then
  -- the registers are as before, the pc is that of the handler, mepc holds the old pc and mcause
  -- the cause, mpie holds the interrupt enable bit and mie is 0, mpp is machine mode, and mcycles
  -- is counted up.
  pub step-IsTrapped :
      (m : MemoryInterface S) (c : Cpu S) (u : Uninit) (r : CpuResult) (t : Trap)
      → IsValid c.registers
      → c.pc < 2 ^ 32
      → c.csr.mtvec < 2 ^ 32
      → (step m c u).1 ≡ some r
      → r.trap ≡ some t
      → IsTrapped c (step m c u).0 t
  step-IsTrapped m c u r t valid lt base e trap =
      let (run, whole) = step-finish_step m c u r e in
      let same = execute-trap m c u r t valid lt run trap in
      let base' : (execute m c u).0.csr.mtvec < 2 ^ 32 = rw same.same_csr base in
      rw (whole, finish_step-taken m (execute m c u).0 r t trap)
        (IsTrapped-IsUntouched c (execute m c u).0 (taken (execute m c u).0 r t) t same
          (taken-IsTrapped (execute m c u).0 r t base'))
