-- ===== src/Device/BlockMemory.antt =====
-- lib/device/block-memory.cpp and lib/include/device/block-memory.hpp: `Block_memory`, a memory of
-- pages that are allocated when they are first touched.
pub mod Contents
pub mod Merge
pub mod Interface
pub mod Stable
pub mod Supported
pub mod Words
pub mod Tests
use Prim.Native.Nat.{min}
use simple_riscv_emulator.Common.{
  ℕ, zero, suc, ◌+◌, ◌-◌, ◌*◌, ◌/◌, ◌%◌, ◌^◌, Bool, true, false, not, ◌&&◌, ◌||◌, Option, some, ltb,
  leb, ◌==◌, if◌then◌else◌, bit_and, u64, Expected, ok, unexpected,
}
use simple_riscv_emulator.Bitset.{take_bit}
use simple_riscv_emulator.Core.Memory.{MemoryError, out_of_range, unaligned, access_fault, byte_of}

pub data FillPolicy : Type 0 where
  none zeros ones random cdcdcdcd : FillPolicy

abbrev pub page_size_bytes : ℕ
page_size_bytes = 64 * 1024

-- The words of a page, by their index.
abbrev pub Page : Type 0
Page = ℕ → ℕ

-- `storage` holds the pages by their index below `page_count`; one that is not there is a null
-- pointer.
pub record BlockMemory : Type 0 where
  pub write_lock : Bool
  pub actual_size_bytes : ℕ
  pub fill_policy : FillPolicy
  pub page_count : ℕ
  pub storage : ℕ → Option Page

-- The constructor.
unfoldable pub create : ℕ → FillPolicy → BlockMemory
create size_bytes mode = record {
  write_lock = false;
  actual_size_bytes = size_bytes;
  fill_policy = mode;
  page_count = u64 (size_bytes + page_size_bytes - 1) / page_size_bytes;
  storage = λ i. Option.none;
}

abbrev pub size : BlockMemory → ℕ
size b = b.actual_size_bytes

unfoldable pub lock : BlockMemory → BlockMemory
lock b = record b { write_lock = true }

unfoldable pub unlock : BlockMemory → BlockMemory
unlock b = record b { write_lock = false }

unfoldable pub update : (ℕ → Option Page) → ℕ → Page → ℕ → Option Page
update storage i page j = if j == i then some page else storage j

-- A word from its bytes in the order of memory.
abbrev pub from_bytes : ℕ → ℕ → ℕ → ℕ → ℕ
from_bytes b0 b1 b2 b3 = b0 + b1 * 2 ^ 8 + b2 * 2 ^ 16 + b3 * 2 ^ 24

-- `byte_ptr[k] = mask.take_bit<k>() ? static_cast<u8>(data >> 8 * k) : byte_ptr[k]`, for one `k`.
abbrev pub chosen_byte : ℕ → ℕ → ℕ → ℕ → ℕ
chosen_byte k mask d old = if take_bit k mask == 1 then byte_of k d else byte_of k old

unfoldable pub merge_bytes : ℕ → ℕ → ℕ → ℕ
merge_bytes mask d old =
    from_bytes (chosen_byte 0 mask d old) (chosen_byte 1 mask d old) (chosen_byte 2 mask d old)
      (chosen_byte 3 mask d old)

-- A memory shorter than a word takes only the bytes that it has.
unfoldable pub is_too_short : ℕ → ℕ → Bool
is_too_short size mask =
    ltb size 4 && (take_bit 3 mask == 1)
    || ltb size 3 && (take_bit 2 mask == 1)
    || ltb size 2 && (take_bit 1 mask == 1)
    || ltb size 1 && (take_bit 0 mask == 1)

-- The page at an index that the source dereferences. `touch_page` has allocated it if the index is
-- below the number of pages; the zeros of a page that is not there stand for a null pointer, which
-- the source would dereference.
abbrev pub page_at : BlockMemory → ℕ → Page
page_at b i = elim (b.storage i) [ Option.none ↦ λ j. 0 | some page ↦ page ]

-- `random` stands for the random device and its distribution: the words drawn for a page.
module _ (random : ℕ → Page) where
  -- `make_unique` clears the page; `fill_page` then fills it by the policy.
  unfoldable pub new_page : FillPolicy → ℕ → Page
  new_page FillPolicy.none i = λ j. 0
  new_page FillPolicy.zeros i = λ j. 0
  new_page FillPolicy.ones i = λ j. 0xffff_ffff
  new_page FillPolicy.random i = random i
  new_page FillPolicy.cdcdcdcd i = λ j. 0xcdcd_cdcd

  unfoldable pub touch_page : BlockMemory → ℕ → BlockMemory
  touch_page b i = if leb b.page_count i then b else elim (b.storage i) [
    | some page ↦ b
    | Option.none ↦ record b { storage = update b.storage i (new_page b.fill_policy i) }
  ]

  -- `std::ranges::copy` of a chunk of bytes to the start of a page.
  unfoldable pub copy_chunk : (ℕ → ℕ) → ℕ → ℕ → Page → Page
  copy_chunk bytes base len page j =
      let byte = λ (k : ℕ).
        if ltb (4 * j + k) len then bytes (base + 4 * j + k) % 2 ^ 8 else byte_of k (page j) in
      from_bytes (byte 0) (byte 1) (byte 2) (byte 3)

  -- The loop over the chunks, with `left` of them to go from page `i` on.
  unfoldable pub fill_pages : ℕ → ℕ → (ℕ → ℕ) → ℕ → BlockMemory → BlockMemory
  fill_pages zero i bytes n b = b
  fill_pages (suc left) i bytes n b =
      let touched = touch_page b i in
      let base = i * page_size_bytes in
      let page = copy_chunk bytes base (min page_size_bytes (n - base)) (page_at touched i) in
      fill_pages left (i + 1) bytes n (record touched { storage = update touched.storage i page })

  unfoldable pub fill_data : BlockMemory → (ℕ → ℕ) → ℕ → BlockMemory × Bool
  fill_data b bytes n =
      if ltb (size b) n
      then (b, false)
      else (fill_pages ((n + page_size_bytes - 1) / page_size_bytes) 0 bytes n b, true)

  unfoldable pub read : BlockMemory → ℕ → BlockMemory × Expected ℕ MemoryError
  read b address =
      if leb (size b) address
      then (b, unexpected out_of_range)
      else if not (bit_and address 0x3 == 0)
      then (b, unexpected unaligned)
      else if ltb b.actual_size_bytes 4
      then (b, unexpected out_of_range)
      else (let i = address / page_size_bytes in
          let touched = touch_page b i in
          (touched, ok (page_at touched i (address % page_size_bytes / 4))))

  unfoldable pub read_page : BlockMemory → ℕ → BlockMemory × Expected (ℕ → ℕ) MemoryError
  read_page b address =
      if not (bit_and address 0xfff == 0)
      then (b, unexpected unaligned)
      else if ltb (size b) (u64 (address + 1024 * 4))
      then (b, unexpected out_of_range)
      else (let i = address / page_size_bytes in
          let touched = touch_page b i in
          (touched, ok (λ j. page_at touched i (address % page_size_bytes / 4 + j))))

  -- The end of `write`, at an address that is in range and aligned.
  unfoldable pub store_bytes : BlockMemory → ℕ → ℕ → ℕ → BlockMemory
  store_bytes b address d mask =
      let i = address / page_size_bytes in
      let j = address % page_size_bytes / 4 in
      let touched = touch_page b i in
      let page = page_at touched i in
      let word = merge_bytes mask d (page j) in
      record touched { storage = update touched.storage i (λ k. if k == j then word else page k) }

  unfoldable pub write : BlockMemory → ℕ → ℕ → ℕ → BlockMemory × Expected (Unit {0}) MemoryError
  write b address d mask =
      if leb (size b) address
      then (b, unexpected out_of_range)
      else if b.write_lock
      then (b, unexpected access_fault)
      else if mask == 0
      then (b, ok tt)
      else if not (bit_and address 0x3 == 0)
      then (b, unexpected unaligned)
      else if is_too_short b.actual_size_bytes mask
      then (b, unexpected out_of_range)
      else (store_bytes b address d mask, ok tt)

-- The pages below `n` that are there.
unfoldable pub count_pages : ℕ → (ℕ → Option Page) → ℕ
count_pages zero storage = 0
count_pages (suc n) storage =
    count_pages n storage + elim (storage n) [ Option.none ↦ 0 | some page ↦ 1 ]

unfoldable pub used_space : BlockMemory → ℕ
used_space b = count_pages b.page_count b.storage * page_size_bytes

unfoldable pub reset_content : BlockMemory → BlockMemory
reset_content b = record b { storage = λ i. Option.none }
