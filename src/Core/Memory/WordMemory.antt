-- ===== src/Core/Memory/WordMemory.antt =====
-- What the CPU's modules may rely on in a memory: an array of words, at the addresses that are
-- ready. The devices that are memories provide it.
use simple_riscv_emulator.Common.{ℕ, ◌/◌, ◌^◌, ◌<◌, ◌≡◌, ◌≢◌, ◌&&◌, ◌==◌, if◌then◌else◌, ok}
use simple_riscv_emulator.Bitset.{take_bit}
use simple_riscv_emulator.Core.Memory.{MemoryInterface, byte_of}

pub record WordMemory {S : Type 0} (m : MemoryInterface S) : Type 1 where
  -- A multiple of 4 at which a word can be read and written.
  pub IsReady : S → ℕ → Type 0
  pub contents : S → ℕ → ℕ
  pub is_word : (s : S) (a : ℕ) → IsReady s a → contents s (a / 4) < 2 ^ 32
  pub read_value : (s : S) (a : ℕ) → IsReady s a → (m.read s a).1 ≡ ok (contents s (a / 4))
  pub write_done : (s : S) (a d mask : ℕ) → IsReady s a → mask ≢ 0 → (m.write s a d mask).1 ≡ ok tt
  pub write_bytes :
      (s : S) (a d mask w k : ℕ)
      → IsReady s a
      → mask ≢ 0
      → k < 4
      → byte_of k (contents (m.write s a d mask).0 w)
        ≡ (if (w == a / 4) && (take_bit k mask == 1) then byte_of k d else byte_of k (contents s w))
  pub write_ready :
      (s : S) (a b d mask : ℕ)
      → IsReady s a
      → IsReady s b
      → mask ≢ 0
      → IsReady (m.write s a d mask).0 b
