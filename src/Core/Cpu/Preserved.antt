-- ===== src/Core/Cpu/Preserved.antt =====
-- Every step of the CPU keeps its invariant: the entry of traps, and the step as a whole.
use simple_riscv_emulator.Common.{
  ℕ, ◌^◌, ◌<◌, ◌≡◌, refl, arith, some, none, Option-cases, subst, sym, inl, inr,
}
use simple_riscv_emulator.Core.Trap.{Trap, code}
use simple_riscv_emulator.Core.Memory.{MemoryInterface}
use simple_riscv_emulator.Core.Csr.{Csr, force_legal, Mstatus}
use simple_riscv_emulator.Core.Csr.Valid
use simple_riscv_emulator.Core.Csr.Valid.{IsLegal, tick-IsValid}
use simple_riscv_emulator.Core.RegisterFile.Laws
use simple_riscv_emulator.Core.Cpu.State.{Cpu, Uninit, CpuResult, create}
use simple_riscv_emulator.Core.Cpu.HandleTrap.{
  handle_trap, take_trap, trap_csr, trap_vector, enter_trap, trap_value,
}
use simple_riscv_emulator.Core.Cpu.Valid.{IsValid, ReadsWords}
use simple_riscv_emulator.Core.Cpu.Invariant.{IsTrapValue, IsUninit, execute-IsGood}
use simple_riscv_emulator.Core.Cpu.{execute, finish_step, step}

code-lt : (t : Trap) → code t < 2 ^ 32
unfolding code
code-lt t = ground arith

trap_value-lt : (t : Trap) (r : CpuResult) → IsTrapValue r → trap_value t r < 2 ^ 32
unfolding trap_value
trap_value-lt t r w = ground (arith, w.alu_result, w.inst)

trap_vector-lt : (c : Csr) (t : Trap) → trap_vector c t < 2 ^ 32
unfolding trap_vector
trap_vector-lt c t = ground arith

enter_trap-IsLegal : (m : Mstatus) → IsLegal m → IsLegal (enter_trap m)
unfolding enter_trap force_legal
enter_trap-IsLegal m h = record {
  legal = λ k. record (h.legal k) { mpie = m.mie; mie = 0; mpp = 3 };
  mie = omega arith;
  mpie = h.mie;
  mpp = omega arith;
}

trap_csr-IsValid :
    (c : Csr) (pc : ℕ) (t : Trap) (r : CpuResult)
    → Valid.IsValid c
    → pc < 2 ^ 32
    → IsTrapValue r
    → Valid.IsValid (trap_csr c pc t r)
unfolding trap_csr
trap_csr-IsValid c pc t r h lt w =
    ground (arith, h, lt, code-lt t, trap_value-lt t r w, enter_trap-IsLegal c.mstatus h.mstatus)

module _ {S : Type 0} (Holds : S → Type 0) where
  handle_trap-some :
      (c : Cpu S) (r : CpuResult) (t : Trap) → r.trap ≡ some t → handle_trap c r ≡ take_trap c r t
  unfolding handle_trap
  handle_trap-some c r t e = rw e refl

  handle_trap-none : (c : Cpu S) (r : CpuResult) → r.trap ≡ none → handle_trap c r ≡ c
  unfolding handle_trap
  handle_trap-none c r e = rw e refl

  take_trap-IsValid :
      (c : Cpu S) (r : CpuResult) (t : Trap)
      → IsValid Holds c
      → IsTrapValue r
      → IsValid Holds (take_trap c r t)
  unfolding take_trap
  take_trap-IsValid c r t h w = record {
    registers = h.registers;
    pc = trap_vector-lt (trap_csr c.csr c.pc t r) t;
    csr = trap_csr-IsValid c.csr c.pc t r h.csr h.pc w;
    cache = h.cache;
    memory = h.memory;
  }

  handle_trap-IsValid :
      (c : Cpu S) (r : CpuResult)
      → IsValid Holds c
      → IsTrapValue r
      → IsValid Holds (handle_trap c r)
  handle_trap-IsValid c r h w = elim (Option-cases r.trap) [
    | inl quiet ↦ subst (IsValid Holds) (sym (handle_trap-none c r quiet)) h
    | inr (t, taken) ↦
        subst (IsValid Holds) (sym (handle_trap-some c r t taken)) (take_trap-IsValid c r t h w)
  ]

  finish_step-IsValid :
      (m : MemoryInterface S) (c : Cpu S) (r : CpuResult)
      → IsValid Holds c
      → IsTrapValue r
      → IsValid Holds (finish_step m c r)
  unfolding finish_step
  finish_step-IsValid m c r h w =
      let done = handle_trap-IsValid c r h w in
      record {
        registers = done.registers;
        pc = done.pc;
        csr = tick-IsValid (handle_trap c r).csr done.csr;
        cache = done.cache;
        memory = done.memory;
      }

  -- A step keeps the validity of the CPU, if the memory reads words in the states of a property
  -- that all accesses keep, and uninitialised members of the result are words.
  pub step-IsValid :
      (m : MemoryInterface S) (c : Cpu S) (u : Uninit)
      → ReadsWords m Holds
      → IsUninit u
      → IsValid Holds c
      → IsValid Holds (step m c u).0
  unfolding step
  step-IsValid m c u reads g h =
      let after = execute-IsGood Holds m reads c u g h in
      elim (Option-cases (execute m c u).1) [
        | inl thrown ↦ rw (step, thrown) after.state
        | inr (r, returned) ↦
            rw (step, returned)
              (finish_step-IsValid m (execute m c u).0 r after.state (after.result r returned))
      ]

-- The states that a CPU comes to by steps.
pub data Reaches {S : Type 0} (m : MemoryInterface S) : Cpu S → Cpu S → Type 0 where
  start : (c : Cpu S) → Reaches m c c
  then_step : (c d : Cpu S) (u : Uninit) → IsUninit u → Reaches m c d → Reaches m c (step m d u).0

module _ {S : Type 0} (Holds : S → Type 0) where
  pub create-IsValid : (pc : ℕ) (s : S) → pc < 2 ^ 32 → Holds s → IsValid Holds (create pc s)
  unfolding create
  create-IsValid pc s lt h = record {
    registers = Laws.init-IsValid;
    pc = lt;
    csr = Valid.init-IsValid;
    cache = λ i j. omega arith;
    memory = h;
  }

  -- Every state that a new CPU with a word as pc comes to by steps has register 0 at 0, words in
  -- the registers, the pc, the CSRs and the cached instructions, and a legal mstatus, if in the
  -- states of a property that holds of the first memory and that all accesses keep the memory reads
  -- words, and if uninitialised members of results are words.
  pub Reaches-IsValid :
      (m : MemoryInterface S) (pc : ℕ) (s : S) (c : Cpu S)
      → ReadsWords m Holds
      → pc < 2 ^ 32
      → Holds s
      → Reaches m (create pc s) c
      → IsValid Holds c
  Reaches-IsValid m pc s c reads lt h r = go (create-IsValid pc s lt h) r
    where
      go : {c d : Cpu S} → IsValid Holds c → Reaches m c d → IsValid Holds d
      go valid (Reaches.start c) = valid
      go valid (Reaches.then_step c d u g r) = step-IsValid Holds m d u reads g (go valid r)
