-- ===== src/Core/InstFetch/Coherence.antt =====
-- The page cache: while each entry holds what its page reads as, a fetch cannot tell the cache from
-- an empty one.
use simple_riscv_emulator.Common.{
  ℕ, ◌≡◌, refl, arith, true, false, ◌==◌, Expected, ok, unexpected, ap, sym, ◌∙◌, bit_and, inl, inr,
  Bool-cases,
}
use simple_riscv_emulator.Core.Memory.{MemoryInterface, MemoryError}
use simple_riscv_emulator.Core.Outcome.{returns}
use simple_riscv_emulator.Core.InstFetch.{
  Cache, init, update, fill, fetch, fencei, is_hit, page_of, index_of, word_of,
}

module _ {S : Type 0} (m : MemoryInterface S) where
  -- Reading a page does not change what any page reads as.
  abbrev pub IsStable : Type 0
  IsStable = (s : S) (a b : ℕ) → (m.read_page (m.read_page s a).0 b).1 ≡ (m.read_page s b).1

  -- Each valid entry holds the words that its page reads as.
  abbrev pub IsCoherent : S → Cache → Type 0
  IsCoherent s cache =
      (i : ℕ) → (cache i).valid ≡ true → (m.read_page s (cache i).address).1 ≡ ok ((cache i).words)

  -- `fencei` makes any cache coherent.
  pub fencei-IsCoherent : (s : S) (cache : Cache) → IsCoherent s (fencei cache)
  unfolding fencei
  fencei-IsCoherent s cache i h = ground (arith, h)

  fill-direct :
      (cache : Cache) (pc : ℕ) (page : Expected (ℕ → ℕ) MemoryError)
      → (fill cache pc page).1 ≡ (fill init pc page).1
  unfolding fill
  fill-direct cache pc (ok words) = refl
  fill-direct cache pc (unexpected e) = refl

  fetch-miss :
      (s : S) (cache : Cache) (pc : ℕ)
      → (bit_and pc 3 == 0) ≡ true
      → is_hit cache pc ≡ false
      → (fetch m s cache pc).2 ≡ (fill cache pc (m.read_page s (page_of pc)).1).1
  unfolding fetch
  fetch-miss s cache pc aligned miss = rw (aligned, miss) refl

  init-miss : (pc : ℕ) → is_hit init pc ≡ false
  unfolding is_hit
  init-miss pc = refl

  hit-entry :
      (cache : Cache) (pc : ℕ)
      → is_hit cache pc ≡ true
      → ((cache (index_of pc)).valid ≡ true) × ((cache (index_of pc)).address ≡ page_of pc)
  unfolding is_hit
  hit-entry cache pc h = ground (arith, h)

  fetch-misaligned :
      (s : S) (cache : Cache) (pc : ℕ)
      → (bit_and pc 3 == 0) ≡ false
      → (fetch m s cache pc).2 ≡ (fetch m s init pc).2
  unfolding fetch
  fetch-misaligned s cache pc u = rw u refl

  fetch-hit :
      (s : S) (cache : Cache) (pc : ℕ)
      → (bit_and pc 3 == 0) ≡ true
      → is_hit cache pc ≡ true
      → (fetch m s cache pc).2 ≡ returns ((cache (index_of pc)).words (word_of pc))
  unfolding fetch
  fetch-hit s cache pc a hit = rw (a, hit) refl

  fill-init : (words : ℕ → ℕ) (pc : ℕ) → (fill init pc (ok words)).1 ≡ returns (words (word_of pc))
  unfolding fill
  fill-init words pc = refl

  -- A fetch through a cache whose valid entries all hold what their pages read as has the outcome
  -- of a fetch through an empty cache.
  pub fetch-uncached :
      (s : S) (cache : Cache) (pc : ℕ)
      → IsCoherent s cache
      → (fetch m s cache pc).2 ≡ (fetch m s init pc).2
  fetch-uncached s cache pc h = elim (Bool-cases (bit_and pc 3 == 0)) [
    | inr unaligned ↦ fetch-misaligned s cache pc unaligned
    | inl aligned ↦
        let direct = fetch-miss s init pc aligned (init-miss pc) in
        elim (Bool-cases (is_hit cache pc)) [
          | inr miss ↦
              fetch-miss s cache pc aligned miss
              ∙ fill-direct cache pc (m.read_page s (page_of pc)).1
              ∙ sym direct
          | inl hit ↦
              let (valid, address) = hit-entry cache pc hit in
              let page : (m.read_page s (page_of pc)).1 ≡ ok ((cache (index_of pc)).words) =
                rw (← address) (h (index_of pc) valid) in
              fetch-hit s cache pc aligned hit
              ∙ sym (
                  direct
                  ∙ ap (λ p. (fill init pc p).1) page
                  ∙ fill-init (cache (index_of pc)).words pc)
        ]
  ]

  fill-IsCoherent :
      (s t : S) (cache : Cache) (pc : ℕ) (page : Expected (ℕ → ℕ) MemoryError)
      → ((b : ℕ) → (m.read_page t b).1 ≡ (m.read_page s b).1)
      → (m.read_page s (page_of pc)).1 ≡ page
      → IsCoherent s cache
      → IsCoherent t (fill cache pc page).0
  unfolding fill update
  fill-IsCoherent s t cache pc (ok words) same e h i valid = elim (Bool-cases (i == index_of pc)) [
    | inl here ↦ rw here (same (page_of pc) ∙ e)
    | inr other ↦
        let was : (cache i).valid ≡ true = ground (arith, valid, other) in
        rw other (same (cache i).address ∙ h i was)
  ]
  fill-IsCoherent s t cache pc (unexpected error) same e h i valid =
      elim (Bool-cases (i == index_of pc)) [
        | inl here ↦ absurd (ground (arith, valid, here))
        | inr other ↦
            let was : (cache i).valid ≡ true = ground (arith, valid, other) in
            rw other (same (cache i).address ∙ h i was)
      ]

  -- A fetch keeps every valid cache entry equal to what its page reads as, if reading a page
  -- changes what no page reads as.
  pub fetch-IsCoherent :
      (s : S) (cache : Cache) (pc : ℕ)
      → IsStable
      → IsCoherent s cache
      → IsCoherent (fetch m s cache pc).0 (fetch m s cache pc).1
  unfolding fetch
  fetch-IsCoherent s cache pc stable h = elim (Bool-cases (bit_and pc 3 == 0)) [
    | inr unaligned ↦ rw unaligned h
    | inl aligned ↦ elim (Bool-cases (is_hit cache pc)) [
      | inl hit ↦ rw (aligned, hit) h
      | inr miss ↦
          rw (aligned, miss)
            (fill-IsCoherent s (m.read_page s (page_of pc)).0 cache pc
              (m.read_page s (page_of pc)).1 (stable s (page_of pc)) refl h)
    ]
  ]
