-- ===== src/Device/BlockMemory/Words.antt =====
-- A `Block_memory` whose pages hold words reads words, and keeps doing so.
use simple_riscv_emulator.Common.{
  ℕ, ◌+◌, ◌/◌, ◌%◌, ◌^◌, ◌<◌, ◌≡◌, arith, ◌==◌, ok, ap, if◌then◌else◌,
}
use simple_riscv_emulator.Core.Cpu.Valid.{ReadsWords}
use simple_riscv_emulator.Device.BlockMemory.{
  BlockMemory, Page, page_size_bytes, read, read_page, write, store_bytes, touch_page, page_at,
  update, merge_bytes,
}
use simple_riscv_emulator.Device.BlockMemory.Contents.{page, page-touch_page, page-update}
use simple_riscv_emulator.Device.BlockMemory.Merge.{merge_bytes-lt}
use simple_riscv_emulator.Device.BlockMemory.Interface.{block_memory}

module _ (random : ℕ → Page) where
  abbrev pub HoldsWords : BlockMemory → Type 0
  HoldsWords b = (i k : ℕ) → page random b i k < 2 ^ 32

  touch_page-HoldsWords :
      (b : BlockMemory) (i : ℕ) → HoldsWords b → HoldsWords (touch_page random b i)
  touch_page-HoldsWords b i h j k =
      let e : page random (touch_page random b i) j k ≡ page random b j k =
        ap (λ p. p k) (page-touch_page random b i j) in
      omega (arith, e, h j k)

  page_at-lt : (b : BlockMemory) (i k : ℕ) → HoldsWords b → page_at b i k < 2 ^ 32
  unfolding page
  page_at-lt b i k h = ground (arith, h i k)

  read-lt : (b : BlockMemory) (a v : ℕ) → HoldsWords b → (read random b a).1 ≡ ok v → v < 2 ^ 32
  unfolding read
  read-lt b a v h e =
      let i = a / page_size_bytes in
      let deep =
        page_at-lt (touch_page random b i) i (a % page_size_bytes / 4)
          (touch_page-HoldsWords b i h) in
      ground (arith, e, deep)

  read-HoldsWords : (b : BlockMemory) (a : ℕ) → HoldsWords b → HoldsWords (read random b a).0
  unfolding read
  read-HoldsWords b a h i k =
      ground (arith, h i k, touch_page-HoldsWords b (a / page_size_bytes) h i k)

  read_page-HoldsWords :
      (b : BlockMemory) (a : ℕ) → HoldsWords b → HoldsWords (read_page random b a).0
  unfolding read_page
  read_page-HoldsWords b a h i k =
      ground (arith, h i k, touch_page-HoldsWords b (a / page_size_bytes) h i k)

  read_page-lt :
      (b : BlockMemory) (a j : ℕ) (words : ℕ → ℕ)
      → HoldsWords b
      → (read_page random b a).1 ≡ ok words
      → words j < 2 ^ 32
  unfolding read_page
  read_page-lt b a j words h e =
      let i = a / page_size_bytes in
      let deep =
        page_at-lt (touch_page random b i) i (a % page_size_bytes / 4 + j)
          (touch_page-HoldsWords b i h) in
      ground (arith, e, deep)

  store_bytes-HoldsWords :
      (b : BlockMemory) (a d mask : ℕ) → HoldsWords b → HoldsWords (store_bytes random b a d mask)
  unfolding store_bytes
  store_bytes-HoldsWords b a d mask h i k =
      let at_page = a / page_size_bytes in
      let at_word = a % page_size_bytes / 4 in
      let touched = touch_page random b at_page in
      let old = page_at touched at_page in
      let p : Page = λ k. if k == at_word then merge_bytes mask d (old at_word) else old k in
      let e : page random (record touched { storage = update touched.storage at_page p }) i k
          ≡ (if i == at_page then p else page random touched i) k =
        ap (λ q. q k) (page-update random touched at_page i p) in
      let same = touch_page-HoldsWords b at_page h in
      rw e (
        ground
          (arith, same i k, page_at-lt touched at_page k same, merge_bytes-lt mask d (old at_word)))

  write-HoldsWords :
      (b : BlockMemory) (a d mask : ℕ) → HoldsWords b → HoldsWords (write random b a d mask).0
  unfolding write
  write-HoldsWords b a d mask h i k = ground (arith, h i k, store_bytes-HoldsWords b a d mask h i k)

  pub block_memory-ReadsWords : ReadsWords (block_memory random) HoldsWords
  block_memory-ReadsWords = record {
    word = read-lt;
    page = read_page-lt;
    read_kept = read-HoldsWords;
    page_kept = read_page-HoldsWords;
    write_kept = write-HoldsWords;
  }
