-- ===== src/Core/Cpu/Total.antt =====
-- When a step has a result: `std::logic_error` is thrown only if the memory answers that a page
-- read or a write is not supported.
use simple_riscv_emulator.Common.{
  ℕ, ◌*◌, ◌%◌, ◌^◌, ◌<◌, ◌≡◌, ◌≢◌, arith, true, inl, inr, some, none, Expected, ok, unexpected,
  Expected-cases, ap, sym, ◌∙◌, bit_and, u32, ◌<<<◌,
}
use simple_riscv_emulator.Core.Outcome.{throws, Outcome-cases}
use simple_riscv_emulator.Core.Memory.{
  MemoryInterface, MemoryError, LoadStoreOpcode, Funct, not_supported,
}
use simple_riscv_emulator.Core.LoadStore.{
  load_store, load, store, store_masked, load_value, load_result, store_result, store_mask,
  is_aligned,
}
use simple_riscv_emulator.Core.LoadStore.Lanes.{store_size}
use simple_riscv_emulator.Core.LoadStore.Loads.{load_size}
use simple_riscv_emulator.Core.InstFetch.{Cache, fetch, fill, page_trap, page_of}
use simple_riscv_emulator.Core.RegisterFile.Laws.{IsValid}
use simple_riscv_emulator.Core.Csr.{access}
use simple_riscv_emulator.Core.Decode.{decode}
use simple_riscv_emulator.Core.Decode.Laws.{IsDecoded, decode-IsDecoded, agrees}
use simple_riscv_emulator.Core.Cpu.State.{Cpu, Uninit, CpuResult, new_result}
use simple_riscv_emulator.Core.Cpu.PreciseTrap.{
  run_stage-ok, run_stage-error, after_access, computed, fetched, load_store-none,
}
use simple_riscv_emulator.Core.Cpu.{
  memory_stage, run_stage, interrupt_stage, decode_stage, execute, step,
}

page_trap-throws : (e : MemoryError) → page_trap e ≡ throws → e ≡ not_supported
unfolding page_trap
page_trap-throws e h = ground (arith, h)

fill-throws :
    (cache : Cache) (pc : ℕ) (page : Expected (ℕ → ℕ) MemoryError)
    → (fill cache pc page).1 ≡ throws
    → page ≡ unexpected not_supported
unfolding fill
fill-throws cache pc (ok words) h = absurd (ground (arith, h))
fill-throws cache pc (unexpected e) h = ap unexpected (page_trap-throws e h)

store_result-throws :
    (r : Expected (Unit {0}) MemoryError) → store_result r ≡ throws → r ≡ unexpected not_supported
unfolding store_result
store_result-throws (ok _) h = absurd (ground (arith, h))
store_result-throws (unexpected e) h = ap unexpected (ground (arith, h))

load_value-throws :
    (f : Funct) (shift v : ℕ)
    → load_value f shift v ≡ throws
    → is_aligned 0 f ≡ true
    → 0 < store_size f
unfolding load_value is_aligned
load_value-throws f shift v h a = ground (arith, h, a)

module _ {S : Type 0} (m : MemoryInterface S) where
  fetch-throws :
      (s : S) (cache : Cache) (pc : ℕ)
      → (fetch m s cache pc).2 ≡ throws
      → (m.read_page s (page_of pc)).1 ≡ unexpected not_supported
  unfolding fetch
  fetch-throws s cache pc h =
      let deep = fill-throws cache pc (m.read_page s (page_of pc)).1 in ground (arith, h, deep)

  -- No write is answered by `not_supported`.
  abbrev pub SupportsWrites : Type 0
  SupportsWrites = (s : S) (a d mask : ℕ) → (m.write s a d mask).1 ≢ unexpected not_supported

  load-throws :
      (s : S) (f : Funct) (a v : ℕ)
      → store_size f ≡ 0
      → (load_store m s LoadStoreOpcode.load f a v).1 ≢ throws
  unfolding load_store load load_result load_value is_aligned
  load-throws s f a v agreed h = ground (arith, h, agreed)

  write-throws :
      (s : S) (a v mask : ℕ) → SupportsWrites → (store_masked m (some mask) s a v).1 ≢ throws
  unfolding store_masked
  write-throws s a v mask supports h =
      let address = bit_and a 0xffff_fffc in
      let d = u32 (v <<< (bit_and a 0x3 * 8)) in
      supports s address d mask (store_result-throws (m.write s address d mask).1 h)

  store-throws :
      (s : S) (f : Funct) (a v : ℕ)
      → SupportsWrites
      → load_size f ≡ 0
      → (load_store m s LoadStoreOpcode.store f a v).1 ≢ throws
  unfolding load_store store store_mask is_aligned
  store-throws s Funct.store_byte a v supports agreed h =
      write-throws s a v (0b0001 <<< bit_and a 0x3 % 2 ^ 4) supports h
  store-throws s Funct.store_halfword a v supports agreed h =
      let no = write-throws s a v (0b0011 <<< bit_and a 0x3 % 2 ^ 4) supports in
      ground (arith, h, no)
  store-throws s Funct.store_word a v supports agreed h =
      let no = write-throws s a v 0b1111 supports in ground (arith, h, no)
  store-throws s Funct.none a v supports agreed h = ground (arith, h)
  store-throws s _ a v supports agreed h = absurd (omega arith)

  load_store-throws :
      (s : S) (o : LoadStoreOpcode) (f : Funct) (a v : ℕ)
      → SupportsWrites
      → agrees o f ≡ true
      → (load_store m s o f a v).1 ≢ throws
  load_store-throws s LoadStoreOpcode.none f a v supports agreed h =
      ground (arith, load_store-none m s f a v, h)
  load_store-throws s LoadStoreOpcode.load f a v supports agreed h =
      load-throws s f a v (ground (arith, agreed)) h
  load_store-throws s LoadStoreOpcode.store f a v supports agreed h =
      store-throws s f a v supports (ground (arith, agreed)) h

  memory_stage-some :
      (c : Cpu S) (r : CpuResult)
      → SupportsWrites
      → IsDecoded r.decoded
      → (memory_stage m c r).1 ≢ none
  unfolding memory_stage
  memory_stage-some c r supports d h =
      let no =
        load_store-throws c.memory r.memory_opcode r.memory_funct r.alu_result r.memory_store_value
          supports d.memory_funct in
      ground (arith, h, no)

  run_stage-some :
      (c : Cpu S) (r : CpuResult)
      → SupportsWrites
      → IsDecoded r.decoded
      → (run_stage m c r).1 ≢ none
  run_stage-some c r supports d h = elim (Expected-cases (access c.csr r.csr_access_info).1) [
    | inr (e, failed) ↦ ground (arith, h, run_stage-error m c r e failed)
    | inl (v, worked) ↦
        memory_stage-some (after_access m c r) (computed m r v) supports d
          (ap (λ p. p.1) (sym (run_stage-ok m c r v worked)) ∙ h)
  ]

  decode_stage-some :
      (c : Cpu S) (r : CpuResult)
      → SupportsWrites
      → IsValid c.registers
      → c.pc < 2 ^ 32
      → (decode_stage m c r).1 ≢ none
  unfolding decode_stage interrupt_stage
  decode_stage-some c r supports valid lt h =
      elim (Expected-cases (decode c.registers r.inst c.pc)) [
        | inr (e, failed) ↦ ground (arith, h, failed)
        | inl (d, worked) ↦
            let decoded = decode-IsDecoded c.registers valid r.inst c.pc d lt worked in
            let run = run_stage-some c (record r { decoded = d }) supports decoded in
            ground (arith, h, worked, run)
      ]

  -- A step has a result, with a trap or without, if the memory never answers a write by
  -- `not_supported`, does not answer so the read of the page of the pc, the register file is valid
  -- and the pc is a word.
  pub step-some :
      (c : Cpu S) (u : Uninit)
      → SupportsWrites
      → (m.read_page c.memory (page_of c.pc)).1 ≢ unexpected not_supported
      → IsValid c.registers
      → c.pc < 2 ^ 32
      → (step m c u).1 ≢ none
  unfolding step execute
  step-some c u supports page valid lt h =
      elim (Outcome-cases (fetch m c.memory c.inst_fetch c.pc).2) [
        | inl (inst, returned) ↦
            let run =
              decode_stage-some (fetched m c) (record (new_result u) { pc = c.pc; inst = inst })
                supports valid lt in
            ground (arith, h, returned, run)
        | inr (inl (t, trapped)) ↦ ground (arith, h, trapped)
        | inr (inr thrown) ↦ page (fetch-throws c.memory c.inst_fetch c.pc thrown)
      ]
