-- ===== src/Core/LoadStore/Tests.antt =====
-- lib/core/memory.cpp: loads and stores on a `Block_memory`.
use simple_riscv_emulator.Common.{
  ℕ, ◌+◌, ◌-◌, ◌*◌, ◌%◌, ◌^◌, ◌<◌, ◌≡◌, arith, refl, ◌&&◌, leb, ltb, if◌then◌else◌,
}
use simple_riscv_emulator.Core.Memory.{Funct, LoadStoreOpcode, byte_of}
use simple_riscv_emulator.Core.Outcome.{returns}
use simple_riscv_emulator.Core.LoadStore.{load_store}
use simple_riscv_emulator.Core.LoadStore.Bytes.{IsAccess, byte_at, store-byte_at}
use simple_riscv_emulator.Core.LoadStore.Loads.{load-store, extend}
use simple_riscv_emulator.Device.BlockMemory.{create, new_page}
use simple_riscv_emulator.Device.BlockMemory.Contents.{contents, page}
use simple_riscv_emulator.Device.BlockMemory.Interface.{block_memory, words, IsWritable-IsReady}
use simple_riscv_emulator.Device.BlockMemory.Tests.{no_random, small, small-IsValid}

small_words : (w : ℕ) → contents no_random small w < 2 ^ 32
unfolding create new_page page
small_words w = omega arith

pub small-IsReady : (words no_random).IsReady small 4096
unfolding create
small-IsReady = IsWritable-IsReady no_random small 4096 record {
  valid = small-IsValid;
  slot = record { in_range = omega arith; aligned = omega arith; long = omega arith };
  unlocked = refl;
  words = small_words;
}

access :
    (n : ℕ)
    → 0 < n
    → 4098 % n ≡ 0
    → IsAccess (block_memory no_random) (words no_random) small n 4098
access n h e = record { sized = h; aligned = e; address = omega arith; ready = small-IsReady }

store-byte_at_example :
    let m = block_memory no_random in
    let w = words no_random in
    let after = load_store m small LoadStoreOpcode.store Funct.store_halfword 4098 0xbeef in
    (after.1 ≡ returns 0)
    × (byte_at m w after.0 4099 ≡ (
        if leb 4098 4099 && ltb 4099 (4098 + 2)
        then byte_of (4099 - 4098) 0xbeef
        else byte_at m w small 4099))
store-byte_at_example =
    store-byte_at (block_memory no_random) (words no_random) small Funct.store_halfword 4098 0xbeef
      4099 (access 2 (omega arith) (omega arith))

load-store_example :
    let m = block_memory no_random in
    let after = (load_store m small LoadStoreOpcode.store Funct.store_halfword 4098 0xbeef).0 in
    (load_store m after LoadStoreOpcode.load Funct.load_halfword 4098 0).1
    ≡ returns (extend Funct.load_halfword (0xbeef % 2 ^ (8 * 2)))
load-store_example =
    load-store (block_memory no_random) (words no_random) small Funct.store_halfword
      Funct.load_halfword 4098 0xbeef 0 refl (access 2 (omega arith) (omega arith))
