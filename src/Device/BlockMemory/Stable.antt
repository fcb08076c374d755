-- ===== src/Device/BlockMemory/Stable.antt =====
-- Reading a page of a `Block_memory` changes no page's contents.
use simple_riscv_emulator.Common.{
  ℕ, ◌+◌, ◌/◌, ◌%◌, ◌≡◌, refl, arith, ◌==◌, Expected, ok, ◌∙◌, sym, fun_ext, inl, inr, bit_and, ltb,
  u64, if◌then◌else◌, ◌⊎◌, unexpected,
}
use simple_riscv_emulator.Core.Memory.{MemoryError, out_of_range, unaligned}
use simple_riscv_emulator.Device.BlockMemory.{
  BlockMemory, Page, read_page, size, page_size_bytes, touch_page, page_at, update,
}
use simple_riscv_emulator.Device.BlockMemory.Contents.{touch_page-size}

module _ (random : ℕ → Page) where
  -- What a read of a page answers, without the page that it may allocate.
  answer : BlockMemory → ℕ → Expected (ℕ → ℕ) MemoryError
  answer b a =
      if bit_and a 0xfff == 0
      then (if ltb (size b) (u64 (a + 4096))
          then unexpected out_of_range
          else ok (λ k.
            page_at (touch_page random b (a / page_size_bytes)) (a / page_size_bytes)
              (a % page_size_bytes / 4 + k)))
      else unexpected unaligned

  read_page-answer : (b : BlockMemory) (a : ℕ) → (read_page random b a).1 ≡ answer b a
  unfolding read_page answer
  read_page-answer b a = ground arith

  touch_twice :
      (b : BlockMemory) (i j k : ℕ)
      → page_at (touch_page random (touch_page random b j) i) i k
        ≡ page_at (touch_page random b i) i k
  unfolding touch_page update
  touch_twice b i j k = ground arith

  answer-touch_page : (b : BlockMemory) (a j : ℕ) → answer (touch_page random b j) a ≡ answer b a
  unfolding answer
  answer-touch_page b a j =
      let i = a / page_size_bytes in
      let same : page_at (touch_page random (touch_page random b j) i) i
          ≡ page_at (touch_page random b i) i =
        fun_ext (λ k. touch_twice b i j k) in
      let length = (touch_page-size random b j).0 in rw (same, length) refl

  read_page-state :
      (b : BlockMemory) (a : ℕ)
      → ((read_page random b a).0 ≡ b)
        ⊎ ((read_page random b a).0 ≡ touch_page random b (a / page_size_bytes))
  unfolding read_page
  read_page-state b a = ground arith

  -- Reading a page does not change what any page reads as.
  pub read_page-IsStable :
      (b : BlockMemory) (a c : ℕ)
      → (read_page random (read_page random b a).0 c).1 ≡ (read_page random b c).1
  read_page-IsStable b a c =
      read_page-answer (read_page random b a).0 c
      ∙ (elim (read_page-state b a) [
        | inl same ↦ rw same refl
        | inr touched ↦ rw touched (answer-touch_page b c (a / page_size_bytes))
      ])
      ∙ sym (read_page-answer b c)
