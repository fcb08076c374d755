-- ===== src/Device/BlockMemory/Contents.antt =====
-- `Block_memory` as an array of words: which word a read returns and what a write changes. That
-- pages are allocated on the way does not show.
use simple_riscv_emulator.Common.{
  ℕ, ◌+◌, ◌*◌, ◌/◌, ◌%◌, ◌^◌, ◌≤◌, ◌<◌, ◌≡◌, ◌≢◌, refl, arith, true, false, ◌==◌, if◌then◌else◌,
  bit_and_mask, some, none, ok, unexpected,
}
use simple_riscv_emulator.Core.Memory.{access_fault}
use simple_riscv_emulator.Device.BlockMemory.{
  BlockMemory, FillPolicy, Page, page_size_bytes, size, create, update, new_page, touch_page,
  page_at, merge_bytes, is_too_short, read, read_page, store_bytes, write,
}

-- Every address below the size has a page.
pub record IsValid (b : BlockMemory) : Type 0 where
  pub covered : b.actual_size_bytes ≤ b.page_count * page_size_bytes

pub create-IsValid : (n : ℕ) (mode : FillPolicy) → n ≤ 2 ^ 63 → IsValid (create n mode)
unfolding create
create-IsValid n mode h = record { covered = omega arith }

module _ (random : ℕ → Page) where
  -- A page as it is, or as it would be filled.
  unfoldable pub page : BlockMemory → ℕ → Page
  page b i = elim (b.storage i) [ none ↦ new_page random b.fill_policy i | some p ↦ p ]

  -- The word at an index, counted from address 0.
  abbrev pub contents : BlockMemory → ℕ → ℕ
  contents b w = page b (w / 16384) (w % 16384)

  pub page-touch_page : (b : BlockMemory) (i j : ℕ) → page (touch_page random b i) j ≡ page b j
  unfolding page touch_page update
  page-touch_page b i j = ground arith

  pub page_at-touch_page :
      (b : BlockMemory) (i : ℕ) → i < b.page_count → page_at (touch_page random b i) i ≡ page b i
  unfolding page touch_page update
  page_at-touch_page b i h = ground arith

  pub touch_page-size :
      (b : BlockMemory) (i : ℕ)
      → ((touch_page random b i).actual_size_bytes ≡ b.actual_size_bytes)
        × ((touch_page random b i).page_count ≡ b.page_count)
        × ((touch_page random b i).write_lock ≡ b.write_lock)
        × ((touch_page random b i).fill_policy ≡ b.fill_policy)
  unfolding touch_page
  touch_page-size b i = ground arith

  page_in_range :
      (b : BlockMemory) (a : ℕ) → IsValid b → a < size b → a / page_size_bytes < b.page_count
  page_in_range b a v h = omega (arith, v.covered)

  -- An aligned address in range of a memory of a word or more.
  pub record IsWord (b : BlockMemory) (a : ℕ) : Type 0 where
    pub in_range : a < size b
    pub aligned : a % 4 ≡ 0
    pub long : 4 ≤ size b

  read_in_range :
      (b : BlockMemory) (a : ℕ)
      → IsWord b a
      → let i = a / page_size_bytes in
        read random b a
        ≡ (touch_page random b i, ok (page_at (touch_page random b i) i (a % page_size_bytes / 4)))
  unfolding read
  read_in_range b a h = ground (arith, bit_and_mask 2 a)

  -- Where a word's page and its place in the page are.
  place :
      (a : ℕ) → (a / 4 / 16384 ≡ a / page_size_bytes) × (a / 4 % 16384 ≡ a % page_size_bytes / 4)
  place a = omega arith

  -- A read of a word in range of a valid memory returns the word there.
  pub read-contents :
      (b : BlockMemory) (a : ℕ)
      → IsValid b
      → IsWord b a
      → (read random b a).1 ≡ ok (contents b (a / 4))
  read-contents b a v h =
      let hit = page_at-touch_page b (a / page_size_bytes) (page_in_range b a v h.in_range) in
      rw (read_in_range b a h, hit, (place a).0, (place a).1) refl

  -- No read changes a word.
  pub contents-read : (b : BlockMemory) (a w : ℕ) → contents (read random b a).0 w ≡ contents b w
  unfolding read
  contents-read b a w = ground (arith, page-touch_page b (a / page_size_bytes) (w / 16384))

  pub page-update :
      (b : BlockMemory) (i j : ℕ) (p : Page)
      → page (record b { storage = update b.storage i p }) j ≡ (if j == i then p else page b j)
  unfolding page update
  page-update b i j p = ground arith

  store_bytes-contents :
      (b : BlockMemory) (a d mask w : ℕ)
      → IsValid b
      → a < size b
      → a % 4 ≡ 0
      → contents (store_bytes random b a d mask) w
        ≡ (if w == a / 4 then merge_bytes mask d (contents b w) else contents b w)
  unfolding store_bytes
  store_bytes-contents b a d mask w v h k =
      let i = a / page_size_bytes in
      let j = a % page_size_bytes / 4 in
      let touched = touch_page random b i in
      let old = page_at touched i in
      let p : Page = λ k. if k == j then merge_bytes mask d (old j) else old k in
      let hit = page_at-touch_page b i (page_in_range b a v h) in
      let other = page-touch_page b i (w / 16384) in
      let whole = page-update touched i (w / 16384) p in
      rw (whole, hit, other) (ground (arith, place a))

  -- A read of an aligned page that lies in a valid memory, below address 2 ^ 64, returns the 1024
  -- words from its address on.
  pub read_page-contents :
      (b : BlockMemory) (a j : ℕ)
      → IsValid b
      → a % 4096 ≡ 0
      → a + 4096 ≤ size b
      → a + 4096 < 2 ^ 64
      → j < 1024
      → (words : ℕ → ℕ) × ((read_page random b a).1 ≡ ok words) × (words j ≡ contents b (a / 4 + j))
  unfolding read_page
  read_page-contents b a j v k h g lt =
      let i = a / page_size_bytes in
      let hit = page_at-touch_page b i (page_in_range b a v (omega arith)) in
      let where_ : ((a / 4 + j) / 16384 ≡ i) × ((a / 4 + j) % 16384 ≡ a % page_size_bytes / 4 + j) =
        omega arith in
      (
        λ k. page_at (touch_page random b i) i (a % page_size_bytes / 4 + k),
        ground (arith, bit_and_mask 12 a),
        rw (hit, where_.0, where_.1) refl,
      )

  pub contents-read_page :
      (b : BlockMemory) (a w : ℕ) → contents (read_page random b a).0 w ≡ contents b w
  unfolding read_page
  contents-read_page b a w = ground (arith, page-touch_page b (a / page_size_bytes) (w / 16384))

  long_enough : (n mask : ℕ) → 4 ≤ n → is_too_short n mask ≡ false
  unfolding is_too_short
  long_enough n mask h = ground arith

  write_in_range :
      (b : BlockMemory) (a d mask : ℕ)
      → IsWord b a
      → b.write_lock ≡ false
      → mask ≢ 0
      → write random b a d mask ≡ (store_bytes random b a d mask, ok tt)
  unfolding write
  write_in_range b a d mask h unlocked nonzero =
      ground (arith, bit_and_mask 2 a, long_enough b.actual_size_bytes mask h.long)

  -- A write with a mask that is not 0, to a word in range of a valid memory that is not locked,
  -- answers no error, merges the bytes of the mask into that word, and changes no other word.
  pub write-contents :
      (b : BlockMemory) (a d mask w : ℕ)
      → IsValid b
      → IsWord b a
      → b.write_lock ≡ false
      → mask ≢ 0
      → ((write random b a d mask).1 ≡ ok tt)
        × (contents (write random b a d mask).0 w
            ≡ (if w == a / 4 then merge_bytes mask d (contents b w) else contents b w))
  write-contents b a d mask w v h unlocked nonzero =
      let done : write random b a d mask ≡ (store_bytes random b a d mask, ok tt) =
        write_in_range b a d mask h unlocked nonzero in
      rw done (refl, store_bytes-contents b a d mask w v h.in_range h.aligned)

  -- A locked memory refuses every write and stays as it is.
  pub write_locked :
      (b : BlockMemory) (a d mask : ℕ)
      → b.write_lock ≡ true
      → a < size b
      → write random b a d mask ≡ (b, unexpected access_fault)
  unfolding write
  write_locked b a d mask locked h = ground arith

  -- Reads and writes keep the memory's size, its lock and the pages for its addresses.
  pub record KeepsShape (b c : BlockMemory) : Type 0 where
    pub same_size : c.actual_size_bytes ≡ b.actual_size_bytes
    pub same_count : c.page_count ≡ b.page_count
    pub same_lock : c.write_lock ≡ b.write_lock
    pub same_policy : c.fill_policy ≡ b.fill_policy

  pub read-KeepsShape : (b : BlockMemory) (a : ℕ) → KeepsShape b (read random b a).0
  unfolding read
  read-KeepsShape b a = ground (arith, touch_page-size b (a / page_size_bytes))

  pub read_page-KeepsShape : (b : BlockMemory) (a : ℕ) → KeepsShape b (read_page random b a).0
  unfolding read_page
  read_page-KeepsShape b a = ground (arith, touch_page-size b (a / page_size_bytes))

  pub write-KeepsShape : (b : BlockMemory) (a d mask : ℕ) → KeepsShape b (write random b a d mask).0
  unfolding write store_bytes
  write-KeepsShape b a d mask = ground (arith, touch_page-size b (a / page_size_bytes))
