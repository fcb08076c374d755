-- ===== src/Core/Memory.antt =====
-- lib/include/core/memory.hpp: what the CPU's modules ask of a memory, and the operations of the
-- load/store module.
pub mod WordMemory
use simple_riscv_emulator.Common.{ℕ, ◌*◌, ◌/◌, ◌%◌, ◌^◌, Expected}

-- `Memory_interface::Error`.
pub data MemoryError : Type 0 where
  out_of_range unaligned access_fault device_error not_supported : MemoryError

-- `Memory_interface`. `S` is the state behind the reference; an address is a `u64`, a mask four
-- bits, and a page its 1024 words by their index.
pub record MemoryInterface (S : Type 0) : Type 0 where
  pub read : S → ℕ → S × Expected ℕ MemoryError
  pub read_page : S → ℕ → S × Expected (ℕ → ℕ) MemoryError
  pub write : S → ℕ → ℕ → ℕ → S × Expected (Unit {0}) MemoryError
  pub size : S → ℕ

-- `Load_store_module::Funct`.
pub data Funct : Type 0 where
  none load_byte load_halfword load_word load_byte_unsigned load_halfword_unsigned : Funct
  store_byte store_halfword store_word : Funct

-- `Load_store_module::Opcode`.
pub data LoadStoreOpcode : Type 0 where
  none load store : LoadStoreOpcode

-- Byte `k` of a word in the order of memory, which is little-endian.
abbrev pub byte_of : ℕ → ℕ → ℕ
byte_of k word = word / 2 ^ (8 * k) % 2 ^ 8
