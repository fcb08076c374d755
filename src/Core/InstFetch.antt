-- ===== src/Core/InstFetch.antt =====
-- lib/core/memory.cpp: `Inst_fetch_module`, the direct-mapped cache of 1024 pages.
pub mod Coherence
mod Tests
use simple_riscv_emulator.Common.{
  ℕ, ◌%◌, Bool, true, false, ◌&&◌, ◌==◌, if◌then◌else◌, bit_and, ◌>>>◌, Expected, ok, unexpected,
}
use simple_riscv_emulator.Core.Trap.{
  inst_address_misaligned, inst_access_fault, illegal_instruction,
}
use simple_riscv_emulator.Core.Outcome.{Outcome, returns, traps, throws}
use simple_riscv_emulator.Core.Memory.{
  MemoryError, out_of_range, unaligned, access_fault, device_error, not_supported, MemoryInterface,
}

-- `Cache_entry`; the 1024 words by their index.
pub record CacheEntry : Type 0 where
  pub words : ℕ → ℕ
  pub address : ℕ
  pub valid : Bool

-- The vector of entries, by their index below `cache_num`.
abbrev pub Cache : Type 0
Cache = ℕ → CacheEntry

abbrev pub cache_num : ℕ
cache_num = 1024

abbrev pub init : Cache
init = λ i. record { words = λ j. 0; address = 0; valid = false }

unfoldable pub update : Cache → ℕ → CacheEntry → Cache
update cache i entry j = if j == i then entry else cache j

-- The `switch` on the error of a page that cannot be read.
unfoldable pub page_trap : MemoryError → Outcome ℕ
page_trap out_of_range = traps inst_access_fault
page_trap access_fault = traps inst_access_fault
page_trap device_error = traps illegal_instruction
page_trap unaligned = traps inst_address_misaligned
page_trap not_supported = throws

abbrev pub page_of : ℕ → ℕ
page_of pc = bit_and pc 0xffff_f000

abbrev pub index_of : ℕ → ℕ
index_of pc = pc >>> 12 % cache_num

abbrev pub word_of : ℕ → ℕ
word_of pc = bit_and pc 0xfff >>> 2

unfoldable pub is_hit : Cache → ℕ → Bool
is_hit cache pc = (cache (index_of pc)).valid && ((cache (index_of pc)).address == page_of pc)

-- The entry is filled from the memory's answer, or made invalid; a failed read leaves its words.
unfoldable pub fill : Cache → ℕ → Expected (ℕ → ℕ) MemoryError → Cache × Outcome ℕ
fill cache pc (ok words) = (
  update cache (index_of pc) (record { words = words; address = page_of pc; valid = true }),
  returns (words (word_of pc)),
)
fill cache pc (unexpected e) =
    (update cache (index_of pc) (record (cache (index_of pc)) { valid = false }), page_trap e)

module _ {S : Type 0} (m : MemoryInterface S) where
  -- `Inst_fetch_module::operator()`.
  unfoldable pub fetch : S → Cache → ℕ → S × Cache × Outcome ℕ
  fetch s cache pc =
      if bit_and pc 0x3 == 0
      then (if is_hit cache pc
          then (s, cache, returns ((cache (index_of pc)).words (word_of pc)))
          else (let (s', page) = m.read_page s (page_of pc) in
              let (cache', r) = fill cache pc page in (s', cache', r)))
      else (s, cache, traps inst_address_misaligned)

unfoldable pub fencei : Cache → Cache
fencei cache i = record (cache i) { valid = false }
