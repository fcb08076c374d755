-- ===== src/Core/Cpu/Valid.antt =====
-- The invariant of the CPU: register 0 is 0, and the registers, the pc, the CSRs and the cached
-- instructions are words.
use simple_riscv_emulator.Common.{
  ℕ, ◌*◌, ◌^◌, ◌<◌, ◌≡◌, ◌≢◌, refl, arith, Option, some, none, Expected, ok, unexpected, to_u32-lt,
  i8, i16, u8, u16, u32, ◌>>>◌, ◌<<<◌, bit_and, Bool-cases, inl, inr, ◌==◌,
}
use simple_riscv_emulator.Core.Outcome.{returns}
use simple_riscv_emulator.Core.Memory.{MemoryInterface, MemoryError, LoadStoreOpcode, Funct}
use simple_riscv_emulator.Core.LoadStore.{
  load_store, load, store, store_masked, load_value, load_result, store_result, store_mask,
  is_aligned,
}
use simple_riscv_emulator.Core.InstFetch.{
  Cache, fetch, fill, update, index_of, word_of, page_of, page_trap, is_hit,
}
use simple_riscv_emulator.Core.RegisterFile.Laws
use simple_riscv_emulator.Core.RegisterFile.Laws.{set_register-IsValid}
use simple_riscv_emulator.Core.Csr.Valid
use simple_riscv_emulator.Core.Csr.Valid.{IsLegal, access-IsValid, tick-IsValid}
use simple_riscv_emulator.Core.Cpu.State.{Cpu}

-- In the states of a property that all accesses keep, the memory reads words and pages of words.
pub record ReadsWords {S : Type 0} (m : MemoryInterface S) (Holds : S → Type 0) : Type 0 where
  pub word : (s : S) (a v : ℕ) → Holds s → (m.read s a).1 ≡ ok v → v < 2 ^ 32
  pub page :
      (s : S) (a j : ℕ) (words : ℕ → ℕ)
      → Holds s
      → (m.read_page s a).1 ≡ ok words
      → words j < 2 ^ 32
  pub read_kept : (s : S) (a : ℕ) → Holds s → Holds (m.read s a).0
  pub page_kept : (s : S) (a : ℕ) → Holds s → Holds (m.read_page s a).0
  pub write_kept : (s : S) (a d mask : ℕ) → Holds s → Holds (m.write s a d mask).0

pub record IsValid {S : Type 0} (Holds : S → Type 0) (c : Cpu S) : Type 0 where
  pub registers : Laws.IsValid c.registers
  pub pc : c.pc < 2 ^ 32
  pub csr : Valid.IsValid c.csr
  pub cache : (i j : ℕ) → (c.inst_fetch i).words j < 2 ^ 32
  pub memory : Holds c.memory

load_value-lt :
    (f : Funct) (shift value v : ℕ)
    → value < 2 ^ 32
    → load_value f shift value ≡ returns v
    → v < 2 ^ 32
unfolding load_value
load_value-lt f shift value v lt e =
    let byte = to_u32-lt (i8 (u8 (value >>> shift))) in
    let halfword = to_u32-lt (i16 (u16 (value >>> shift))) in ground (arith, e, byte, halfword)

page_trap-returns : (x : MemoryError) (v : ℕ) → page_trap x ≢ returns v
unfolding page_trap
page_trap-returns x v e = ground (arith, e)

load_result-lt :
    (f : Funct) (shift v : ℕ) (r : Expected ℕ MemoryError)
    → ((x : ℕ) → r ≡ ok x → x < 2 ^ 32)
    → load_result f shift r ≡ returns v
    → v < 2 ^ 32
unfolding load_result
load_result-lt f shift v (ok x) words e = load_value-lt f shift x v (words x refl) e
load_result-lt f shift v (unexpected error) words e = absurd (ground (arith, e))

store_result-zero :
    (r : Expected (Unit {0}) MemoryError) (v : ℕ) → store_result r ≡ returns v → v ≡ 0
unfolding store_result
store_result-zero (ok _) v e = ground (arith, e)
store_result-zero (unexpected error) v e = absurd (ground (arith, e))

module _ {S : Type 0} (m : MemoryInterface S) (Holds : S → Type 0)
    (reads : ReadsWords m Holds) where
  load-lt : (s : S) (f : Funct) (a v : ℕ) → Holds s → (load m s f a).1 ≡ returns v → v < 2 ^ 32
  unfolding load
  load-lt s f a v h e =
      let address = bit_and a 0xffff_fffc in
      let words = λ (x : ℕ) (e : (m.read s address).1 ≡ ok x). reads.word s address x h e in
      let deep = load_result-lt f (bit_and a 0x3 * 8) v (m.read s address).1 words in
      ground (arith, e, deep)

  store_masked-zero :
      (s : S) (o : Option ℕ) (a x v : ℕ) → (store_masked m o s a x).1 ≡ returns v → v ≡ 0
  unfolding store_masked
  store_masked-zero s none a x v e = absurd (ground (arith, e))
  store_masked-zero s (some mask) a x v e =
      store_result-zero (m.write s (bit_and a 0xffff_fffc) (u32 (x <<< (bit_and a 0x3 * 8))) mask).1
        v e

  store-zero : (s : S) (f : Funct) (a x v : ℕ) → (store m s f a x).1 ≡ returns v → v ≡ 0
  unfolding store
  store-zero s f a x v e =
      let deep = store_masked-zero s (store_mask f (bit_and a 0x3)) a x v in ground (arith, e, deep)

  pub load_store-lt :
      (s : S) (o : LoadStoreOpcode) (f : Funct) (a x v : ℕ)
      → Holds s
      → (load_store m s o f a x).1 ≡ returns v
      → v < 2 ^ 32
  unfolding load_store
  load_store-lt s LoadStoreOpcode.none f a x v h e = ground (arith, e)
  load_store-lt s LoadStoreOpcode.load f a x v h e = load-lt s f a v h e
  load_store-lt s LoadStoreOpcode.store f a x v h e = omega (arith, store-zero s f a x v e)

  fill-words :
      (cache : Cache) (pc i j : ℕ) (page : Expected (ℕ → ℕ) MemoryError)
      → ((i j : ℕ) → (cache i).words j < 2 ^ 32)
      → ((words : ℕ → ℕ) → page ≡ ok words → (j : ℕ) → words j < 2 ^ 32)
      → ((fill cache pc page).0 i).words j < 2 ^ 32
  unfolding fill update
  fill-words cache pc i j (ok words) h page = ground (arith, h i j, page words refl j)
  fill-words cache pc i j (unexpected e) h page = ground (arith, h i j, h (index_of pc) j)

  fill-returns :
      (cache : Cache) (pc v : ℕ) (page : Expected (ℕ → ℕ) MemoryError)
      → ((words : ℕ → ℕ) → page ≡ ok words → (j : ℕ) → words j < 2 ^ 32)
      → (fill cache pc page).1 ≡ returns v
      → v < 2 ^ 32
  unfolding fill
  fill-returns cache pc v (ok words) page e = ground (arith, e, page words refl (word_of pc))
  fill-returns cache pc v (unexpected x) page e = absurd (page_trap-returns x v e)

  pub fetch-words :
      (s : S) (cache : Cache) (pc : ℕ)
      → Holds s
      → ((i j : ℕ) → (cache i).words j < 2 ^ 32)
      → ((i j : ℕ) → ((fetch m s cache pc).1 i).words j < 2 ^ 32)
        × ((v : ℕ) → (fetch m s cache pc).2 ≡ returns v → v < 2 ^ 32)
  unfolding fetch
  fetch-words s cache pc holds h =
      let page = m.read_page s (page_of pc) in
      let words =
        λ (w : ℕ → ℕ) (e : page.1 ≡ ok w) (j : ℕ). reads.page s (page_of pc) j w holds e in
      (
        λ i j. ground (arith, h i j, fill-words cache pc i j page.1 h words),
        λ v e.
            let filled = fill-returns cache pc v page.1 words in
            ground (arith, e, h (index_of pc) (word_of pc), filled),
      )

  store_masked-kept : (s : S) (o : Option ℕ) (a x : ℕ) → Holds s → Holds (store_masked m o s a x).0
  unfolding store_masked
  store_masked-kept s none a x h = h
  store_masked-kept s (some mask) a x h =
      reads.write_kept s (bit_and a 0xffff_fffc) (u32 (x <<< (bit_and a 0x3 * 8))) mask h

  pub load_store-kept :
      (s : S) (o : LoadStoreOpcode) (f : Funct) (a x : ℕ)
      → Holds s
      → Holds (load_store m s o f a x).0
  unfolding load_store load store
  load_store-kept s LoadStoreOpcode.none f a x h = h
  load_store-kept s LoadStoreOpcode.load f a x h = elim (Bool-cases (is_aligned a f)) [
    | inl fits ↦ rw fits (reads.read_kept s (bit_and a 0xffff_fffc) h)
    | inr other ↦ rw other h
  ]
  load_store-kept s LoadStoreOpcode.store f a x h = elim (Bool-cases (is_aligned a f)) [
    | inl fits ↦ rw fits (store_masked-kept s (store_mask f (bit_and a 0x3)) a x h)
    | inr other ↦ rw other h
  ]

  pub fetch-kept : (s : S) (cache : Cache) (pc : ℕ) → Holds s → Holds (fetch m s cache pc).0
  unfolding fetch
  fetch-kept s cache pc h = elim (Bool-cases (bit_and pc 0x3 == 0)) [
    | inr other ↦ rw other h
    | inl aligned ↦ elim (Bool-cases (is_hit cache pc)) [
      | inl hit ↦ rw (aligned, hit) h
      | inr miss ↦ rw (aligned, miss) (reads.page_kept s (page_of pc) h)
    ]
  ]
