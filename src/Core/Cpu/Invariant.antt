-- ===== src/Core/Cpu/Invariant.antt =====
-- Every step of the CPU keeps its invariant.
use simple_riscv_emulator.Common.{
  ◌^◌, ◌<◌, ◌≡◌, arith, Bool, true, false, if◌then◌else◌, inl, inr, Option, some, Expected-cases,
}
use simple_riscv_emulator.Core.Trap.{
  illegal_instruction, env_call_from_m_mode, machine_timer_interrupt,
}
use simple_riscv_emulator.Core.Outcome.{Outcome-cases}
use simple_riscv_emulator.Core.Memory.{MemoryInterface}
use simple_riscv_emulator.Core.LoadStore.{load_store}
use simple_riscv_emulator.Core.InstFetch.{fetch}
use simple_riscv_emulator.Core.Alu.Bounds.{alu-lt}
use simple_riscv_emulator.Core.Csr.{access}
use simple_riscv_emulator.Core.Csr.Valid.{access-IsValid}
use simple_riscv_emulator.Core.Csr.Results.{access-lt}
use simple_riscv_emulator.Core.Decode.{decode}
use simple_riscv_emulator.Core.Decode.Laws.{IsDecoded, decode-IsDecoded}
use simple_riscv_emulator.Core.Cpu.State.{Cpu, Uninit, CpuResult, new_result}
use simple_riscv_emulator.Core.Cpu.Valid.{
  IsValid, ReadsWords, load_store-lt, load_store-kept, fetch-words, fetch-kept,
}
use simple_riscv_emulator.Core.Cpu.PreciseTrap.{
  run_stage-ok, run_stage-error, after_access, computed, execute-returns, execute-traps,
  execute-throws, fetched,
}
use simple_riscv_emulator.Core.Cpu.{
  timer_interrupt, writeback, memory_stage, run_stage, interrupt_stage, decode_stage, execute,
}
use simple_riscv_emulator.Core.Cpu.Writeback.{writeback-IsValid}

-- The members of a result that a trap may put in mtval.
pub record IsTrapValue (r : CpuResult) : Type 0 where
  pub alu_result : r.alu_result < 2 ^ 32
  pub inst : r.inst < 2 ^ 32

-- The members of a result that have no initializer are found as words.
pub record IsUninit (u : Uninit) : Type 0 where
  pub alu_result : u.alu_result < 2 ^ 32
  pub csr_result : u.csr_result < 2 ^ 32
  pub writeback_value : u.writeback_value < 2 ^ 32

module _ {S : Type 0} (Holds : S → Type 0) where
  -- A state that is valid, and a result, if any, whose members are words.
  pub record IsGood (p : Cpu S × Option CpuResult) : Type 0 where
    pub state : IsValid Holds p.0
    pub result : (r : CpuResult) → p.1 ≡ some r → IsTrapValue r

  good : (c : Cpu S) (r : CpuResult) → IsValid Holds c → IsTrapValue r → IsGood (c, some r)
  good c r h w = record { state = h; result = λ r' e. ground (arith, e, w) }

  either :
      (b : Bool) (p q : Cpu S × Option CpuResult)
      → IsGood p
      → IsGood q
      → IsGood (if b then p else q)
  either true p q x y = x
  either false p q x y = y

  writeback-values :
      (c : Cpu S) (r : CpuResult)
      → r.alu_result < 2 ^ 32
      → r.inst < 2 ^ 32
      → IsTrapValue (writeback c r).1
  unfolding writeback
  writeback-values c r a i = record { alu_result = a; inst = i }

  module _ (m : MemoryInterface S) (reads : ReadsWords m Holds) where
    memory_stage-IsGood :
        (c : Cpu S) (r : CpuResult)
        → IsValid Holds c
        → IsTrapValue r
        → IsDecoded r.decoded
        → r.csr_result < 2 ^ 32
        → r.writeback_value < 2 ^ 32
        → IsGood (memory_stage m c r)
    unfolding memory_stage
    memory_stage-IsGood c r h w d v wb =
        let o =
          load_store m c.memory r.memory_opcode r.memory_funct r.alu_result r.memory_store_value in
        let c' = record c { memory = o.0 } in
        let h' : IsValid Holds c' = record {
          registers = h.registers;
          pc = h.pc;
          csr = h.csr;
          cache = h.cache;
          memory =
              load_store-kept m Holds reads c.memory r.memory_opcode r.memory_funct r.alu_result
                r.memory_store_value h.memory;
        } in
        elim (Outcome-cases o.1) [
          | inr (inr thrown) ↦
              rw (memory_stage, thrown)
                record { state = h'; result = λ r' e. absurd (ground (arith, e)) }
          | inr (inl (t, trapped)) ↦
              rw (memory_stage, trapped)
                (good c' (record r { trap = some t }) h'
                  record { alu_result = w.alu_result; inst = w.inst })
          | inl (x, returned) ↦
              let lt =
                load_store-lt m Holds reads c.memory r.memory_opcode r.memory_funct r.alu_result
                  r.memory_store_value x h.memory returned in
              let done = record r { memory_load_value = x } in
              rw (memory_stage, returned)
                (good (writeback c' done).0 (writeback c' done).1
                  (writeback-IsValid Holds c' done h' d.dest_register w.alu_result lt v wb)
                  (writeback-values c' done w.alu_result w.inst))
        ]

    run_stage-IsGood :
        (c : Cpu S) (r : CpuResult)
        → IsValid Holds c
        → r.inst < 2 ^ 32
        → IsDecoded r.decoded
        → r.writeback_value < 2 ^ 32
        → r.csr_result < 2 ^ 32
        → IsGood (run_stage m c r)
    run_stage-IsGood c r h inst d wb old =
        let csr = access-IsValid c.csr r.csr_access_info h.csr d.write_value in
        let a = alu-lt r.alu_opcode r.alu_num1 r.alu_num2 d.alu_num1 d.alu_num2 in
        let h' : IsValid Holds (after_access m c r) = record {
          registers = h.registers;
          pc = h.pc;
          csr = csr;
          cache = h.cache;
          memory = h.memory;
        } in
        elim (Expected-cases (access c.csr r.csr_access_info).1) [
          | inr (e, failed) ↦ rw (run_stage-error m c r e failed) (
              good (after_access m c r)
                (record (computed m r r.csr_result) { trap = some illegal_instruction }) h'
                record { alu_result = a; inst = inst })
          | inl (v, worked) ↦
              let lt = access-lt c.csr r.csr_access_info v h.csr d.write_value worked in
              rw (run_stage-ok m c r v worked) (
                memory_stage-IsGood (after_access m c r) (computed m r v) h'
                  record { alu_result = a; inst = inst } d lt wb)
        ]

    interrupt_stage-IsGood :
        (c : Cpu S) (r : CpuResult)
        → IsValid Holds c
        → IsTrapValue r
        → IsDecoded r.decoded
        → r.writeback_value < 2 ^ 32
        → r.csr_result < 2 ^ 32
        → IsGood (interrupt_stage m c r)
    unfolding interrupt_stage
    interrupt_stage-IsGood c r h w d wb old =
        let call = record r { trap = some env_call_from_m_mode } in
        let timer = record r { trap = some machine_timer_interrupt } in
        either r.ecall (c, some call)
          (if timer_interrupt c.csr then (c, some timer) else run_stage m c r)
          (good c call h record { alu_result = w.alu_result; inst = w.inst })
          (either (timer_interrupt c.csr) (c, some timer) (run_stage m c r)
            (good c timer h record { alu_result = w.alu_result; inst = w.inst })
            (run_stage-IsGood c r h w.inst d wb old))

    decode_stage-IsGood :
        (c : Cpu S) (r : CpuResult)
        → IsValid Holds c
        → IsTrapValue r
        → r.writeback_value < 2 ^ 32
        → r.csr_result < 2 ^ 32
        → IsGood (decode_stage m c r)
    unfolding decode_stage
    decode_stage-IsGood c r h w wb old = elim (Expected-cases (decode c.registers r.inst c.pc)) [
      | inr (t, failed) ↦
          rw (decode_stage, failed)
            (good c (record r { trap = some t }) h
              record { alu_result = w.alu_result; inst = w.inst })
      | inl (d, worked) ↦
          rw (decode_stage, worked)
            (interrupt_stage-IsGood c (record r { decoded = d }) h
              record { alu_result = w.alu_result; inst = w.inst }
              (decode-IsDecoded c.registers h.registers r.inst c.pc d h.pc worked) wb old)
    ]

    pub execute-IsGood :
        (c : Cpu S) (u : Uninit) → IsUninit u → IsValid Holds c → IsGood (execute m c u)
    unfolding new_result
    execute-IsGood c u g h =
        let (cached, instruction) =
          fetch-words m Holds reads c.memory c.inst_fetch c.pc h.memory h.cache in
        let held = fetch-kept m Holds reads c.memory c.inst_fetch c.pc h.memory in
        let h' : IsValid Holds (fetched m c) = record {
          registers = h.registers;
          pc = h.pc;
          csr = h.csr;
          cache = cached;
          memory = held;
        } in
        elim (Outcome-cases (fetch m c.memory c.inst_fetch c.pc).2) [
          | inl (inst, returned) ↦ rw (execute-returns m c u inst returned) (
              decode_stage-IsGood (fetched m c) (record (new_result u) { pc = c.pc; inst = inst })
                h' record { alu_result = g.alu_result; inst = instruction inst returned }
                g.writeback_value g.csr_result)
          | inr (inl (t, trapped)) ↦ rw (execute-traps m c u t trapped) (
              good (fetched m c) (record (new_result u) { pc = c.pc; trap = some t }) h'
                record { alu_result = g.alu_result; inst = omega arith })
          | inr (inr thrown) ↦
              rw (execute-throws m c u thrown)
                record { state = h'; result = λ r e. absurd (ground (arith, e)) }
        ]
