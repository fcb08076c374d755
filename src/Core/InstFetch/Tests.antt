-- ===== src/Core/InstFetch/Tests.antt =====
-- lib/core/memory.cpp: fetches of instructions from a `Block_memory`.
use simple_riscv_emulator.Common.{◌≡◌}
use simple_riscv_emulator.Core.InstFetch.{Cache, init, fetch, fencei}
use simple_riscv_emulator.Core.InstFetch.Coherence.{
  IsCoherent, fencei-IsCoherent, fetch-uncached, fetch-IsCoherent,
}
use simple_riscv_emulator.Device.BlockMemory.Interface.{block_memory}
use simple_riscv_emulator.Device.BlockMemory.Stable.{read_page-IsStable}
use simple_riscv_emulator.Device.BlockMemory.Tests.{no_random, small}

-- The cache after a fetch from the second page.
abbrev filled : Cache
filled = (fetch (block_memory no_random) small (fencei init) 4100).1

filled-IsCoherent :
    IsCoherent
      (block_memory no_random)
      (fetch (block_memory no_random) small (fencei init) 4100).0
      filled
filled-IsCoherent =
    fetch-IsCoherent (block_memory no_random) small (fencei init) 4100
      (read_page-IsStable no_random) (fencei-IsCoherent (block_memory no_random) small init)

fetch-uncached_example :
    let m = block_memory no_random in
    let s = (fetch m small (fencei init) 4100).0 in
    (fetch m s filled 4096).2 ≡ (fetch m s init 4096).2
fetch-uncached_example =
    fetch-uncached (block_memory no_random)
      (fetch (block_memory no_random) small (fencei init) 4100).0 filled 4096 filled-IsCoherent

fencei-IsCoherent_example : IsCoherent (block_memory no_random) small (fencei filled)
fencei-IsCoherent_example = fencei-IsCoherent (block_memory no_random) small filled
