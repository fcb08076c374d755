-- ===== src/Core/Cpu/PreciseTrap.antt =====
-- A step that ends in a trap has no other effect on the registers, the pc and the CSRs.
use simple_riscv_emulator.Common.{
  ℕ, ◌^◌, ◌<◌, ◌≡◌, ◌≢◌, refl, arith, inl, inr, Option, some, none, ok, unexpected, ap, sym,
  Expected-cases, ◌∙◌,
}
use simple_riscv_emulator.Core.Trap.{Trap, illegal_instruction}
use simple_riscv_emulator.Core.Outcome.{returns, traps, throws, Outcome-cases}
use simple_riscv_emulator.Core.Csr.{Csr, CsrError, access}
use simple_riscv_emulator.Core.Csr.Access.{access-error}
use simple_riscv_emulator.Core.Memory.{MemoryInterface, LoadStoreOpcode, Funct}
use simple_riscv_emulator.Core.LoadStore.{load_store}
use simple_riscv_emulator.Core.Alu.{alu, branch}
use simple_riscv_emulator.Core.InstFetch.{fetch}
use simple_riscv_emulator.Core.RegisterFile.Laws.{IsValid}
use simple_riscv_emulator.Core.Decode.Result.{no_access}
use simple_riscv_emulator.Core.Decode.{decode}
use simple_riscv_emulator.Core.Decode.Laws.{IsDecoded, decode-IsDecoded}
use simple_riscv_emulator.Core.Cpu.State.{Cpu, Uninit, CpuResult, new_result}
use simple_riscv_emulator.Core.Cpu.{
  memory_stage, run_stage, interrupt_stage, decode_stage, execute, writeback,
}

access-no_access : (c : Csr) → access c no_access ≡ (c, ok 0)
unfolding access
access-no_access c = ground arith

pub load_store-none :
    {S : Type 0}
    → (m : MemoryInterface S) (s : S) (f : Funct) (a v : ℕ)
    → load_store m s LoadStoreOpcode.none f a v ≡ (s, returns 0)
unfolding load_store
load_store-none m s f a v = refl

-- The parts of the CPU that a trapped instruction must leave alone are those of an earlier state.
pub record IsUntouched {S : Type 0} (c c' : Cpu S) : Type 0 where
  pub same_pc : c'.pc ≡ c.pc
  pub same_registers : c'.registers ≡ c.registers
  pub same_csr : c'.csr ≡ c.csr

module _ {S : Type 0} where
  -- The result of a stage: if it has a trap, then the state is untouched.
  abbrev pub IsPrecise : Cpu S → Cpu S × Option CpuResult → Type 0
  IsPrecise c (c', o) = (r : CpuResult) (t : Trap) → o ≡ some r → r.trap ≡ some t → IsUntouched c c'

  writeback-trap : (c : Cpu S) (r : CpuResult) → (writeback c r).1.trap ≡ r.trap
  unfolding writeback
  writeback-trap c r = refl

  module _ (m : MemoryInterface S) where
    memory_stage-IsPrecise :
        (c c0 : Cpu S) (r : CpuResult)
        → r.trap ≡ none
        → c.pc ≡ c0.pc
        → c.registers ≡ c0.registers
        → c.csr ≡ c0.csr
        → IsPrecise c0 (memory_stage m c r)
    unfolding memory_stage writeback
    memory_stage-IsPrecise c c0 r none_yet pc registers csr r' t e trap =
        ground (arith, e, trap, none_yet, pc, registers, csr)

    memory_stage-none :
        (c : Cpu S) (r r' : CpuResult) (t : Trap)
        → r.trap ≡ none
        → r.memory_opcode ≡ LoadStoreOpcode.none
        → (memory_stage m c r).1 ≡ some r'
        → r'.trap ≢ some t
    unfolding memory_stage writeback
    memory_stage-none c r r' t none_yet opcode e trap =
        let quiet = load_store-none m c.memory r.memory_funct r.alu_result r.memory_store_value in
        ground (
          arith,
          e,
          trap,
          none_yet,
          ap (λ o. load_store m c.memory o r.memory_funct r.alu_result r.memory_store_value) opcode,
          quiet,
        )

    -- The state and the result that the memory stage starts from.
    abbrev pub after_access : Cpu S → CpuResult → Cpu S
    after_access c r = record c { csr = (access c.csr r.csr_access_info).0 }

    abbrev pub computed : CpuResult → ℕ → CpuResult
    computed r v = record r {
      alu_result = alu r.alu_opcode r.alu_num1 r.alu_num2;
      branch_result = branch r.branch_opcode r.branch_num1 r.branch_num2;
      csr_result = v;
    }

    pub run_stage-ok :
        (c : Cpu S) (r : CpuResult) (v : ℕ)
        → (access c.csr r.csr_access_info).1 ≡ ok v
        → run_stage m c r ≡ memory_stage m (after_access c r) (computed r v)
    unfolding run_stage
    run_stage-ok c r v e = rw (run_stage, e) refl

    pub run_stage-error :
        (c : Cpu S) (r : CpuResult) (e : CsrError)
        → (access c.csr r.csr_access_info).1 ≡ unexpected e
        → run_stage m c r ≡ (
          after_access c r,
          some (record (computed r r.csr_result) { trap = some illegal_instruction }),
        )
    unfolding run_stage
    run_stage-error c r e h = rw (run_stage, h) refl

    run_stage-IsPrecise :
        (c c0 : Cpu S) (r : CpuResult)
        → r.trap ≡ none
        → IsDecoded r.decoded
        → c.pc ≡ c0.pc
        → c.registers ≡ c0.registers
        → c.csr ≡ c0.csr
        → IsPrecise c0 (run_stage m c r)
    run_stage-IsPrecise c c0 r none_yet d pc registers csr r' t e trap =
        elim (Expected-cases (access c.csr r.csr_access_info).1) [
          | inr (error, failed) ↦
              let run = run_stage-error c r error failed in
              let (same, _) = access-error c.csr r.csr_access_info error failed in
              rw run record { same_pc = pc; same_registers = registers; same_csr = same ∙ csr }
          | inl (v, worked) ↦
              let run = run_stage-ok c r v worked in
              let e' : (memory_stage m (after_access c r) (computed r v)).1 ≡ some r' =
                ap (λ p. p.1) (sym run) ∙ e in
              elim d.separate [
                | inl opcode ↦ absurd (
                    memory_stage-none (after_access c r) (computed r v) r' t none_yet opcode e'
                      trap)
                | inr quiet ↦
                    let kept : (access c.csr r.csr_access_info).0 ≡ c.csr =
                      ap (λ i. (access c.csr i).0) quiet ∙ ap (λ p. p.0) (access-no_access c.csr) in
                    rw run (
                      memory_stage-IsPrecise (after_access c r) c0 (computed r v) none_yet pc
                        registers (kept ∙ csr) r' t e' trap)
              ]
        ]

    interrupt_stage-IsPrecise :
        (c c0 : Cpu S) (r : CpuResult)
        → r.trap ≡ none
        → IsDecoded r.decoded
        → c.pc ≡ c0.pc
        → c.registers ≡ c0.registers
        → c.csr ≡ c0.csr
        → IsPrecise c0 (interrupt_stage m c r)
    unfolding interrupt_stage
    interrupt_stage-IsPrecise c c0 r none_yet d pc registers csr r' t e trap =
        let run = run_stage-IsPrecise c c0 r none_yet d pc registers csr r' t in
        ground (arith, e, trap, pc, registers, csr, run)

    decode_stage-IsPrecise :
        (c c0 : Cpu S) (r : CpuResult)
        → r.trap ≡ none
        → IsValid c.registers
        → c.pc < 2 ^ 32
        → c.pc ≡ c0.pc
        → c.registers ≡ c0.registers
        → c.csr ≡ c0.csr
        → IsPrecise c0 (decode_stage m c r)
    unfolding decode_stage
    decode_stage-IsPrecise c c0 r none_yet valid lt pc registers csr r' t e trap =
        elim (Expected-cases (decode c.registers r.inst c.pc)) [
          | inr (error, failed) ↦ ground (arith, e, failed, pc, registers, csr)
          | inl (d, worked) ↦
              let decoded = decode-IsDecoded c.registers valid r.inst c.pc d lt worked in
              let run =
                interrupt_stage-IsPrecise c c0 (record r { decoded = d }) none_yet decoded pc
                  registers csr r' t in
              ground (arith, e, trap, worked, run)
        ]

    -- The state that the fetch leaves, and the result that the decoder starts from.
    abbrev pub fetched : Cpu S → Cpu S
    fetched c =
        let (s, cache, o) = fetch m c.memory c.inst_fetch c.pc in
        record c { memory = s; inst_fetch = cache }

    pub execute-returns :
        (c : Cpu S) (u : Uninit) (inst : ℕ)
        → (fetch m c.memory c.inst_fetch c.pc).2 ≡ returns inst
        → execute m c u
          ≡ decode_stage m (fetched c) (record (new_result u) { pc = c.pc; inst = inst })
    unfolding execute
    execute-returns c u inst e = rw (execute, e) refl

    pub execute-traps :
        (c : Cpu S) (u : Uninit) (t : Trap)
        → (fetch m c.memory c.inst_fetch c.pc).2 ≡ traps t
        → execute m c u ≡ (fetched c, some (record (new_result u) { pc = c.pc; trap = some t }))
    unfolding execute
    execute-traps c u t e = rw (execute, e) refl

    pub execute-throws :
        (c : Cpu S) (u : Uninit)
        → (fetch m c.memory c.inst_fetch c.pc).2 ≡ throws
        → execute m c u ≡ (fetched c, none)
    unfolding execute
    execute-throws c u e = rw (execute, e) refl

    -- An instruction that ends in a trap leaves the pc, the registers and the CSRs as they were, if
    -- the register file was valid and the pc a word.
    pub execute-trap :
        (c : Cpu S) (u : Uninit) (r : CpuResult) (t : Trap)
        → IsValid c.registers
        → c.pc < 2 ^ 32
        → (execute m c u).1 ≡ some r
        → r.trap ≡ some t
        → IsUntouched c (execute m c u).0
    unfolding execute new_result
    execute-trap c u r t valid lt e trap =
        elim (Outcome-cases (fetch m c.memory c.inst_fetch c.pc).2) [
          | inl (inst, returned) ↦
              let run = execute-returns c u inst returned in
              let e' = ap (λ p. p.1) (sym run) ∙ e in
              rw run (
                decode_stage-IsPrecise (fetched c) c
                  (record (new_result u) { pc = c.pc; inst = inst }) refl valid lt refl refl refl r
                  t e' trap)
          | inr (inl (t', trapped)) ↦ ground (arith, e, trapped)
          | inr (inr thrown) ↦ absurd (ground (arith, e, thrown))
        ]
