-- ===== src/Device/BlockMemory/Merge.antt =====
-- The bytes of a word that a masked write leaves.
use simple_riscv_emulator.Common.{ℕ, zero, suc, ◌^◌, ◌<◌, ◌≡◌, arith, ◌==◌, if◌then◌else◌}
use simple_riscv_emulator.Core.Memory.{byte_of}
use simple_riscv_emulator.Bitset.{take_bit}
use simple_riscv_emulator.Device.BlockMemory.{merge_bytes, chosen_byte, from_bytes}

pub byte_of-from_bytes :
    (b0 b1 b2 b3 : ℕ)
    → b0 < 2 ^ 8
    → b1 < 2 ^ 8
    → b2 < 2 ^ 8
    → b3 < 2 ^ 8
    → let w = from_bytes b0 b1 b2 b3 in
      (byte_of 0 w ≡ b0)
      × (byte_of 1 w ≡ b1)
      × (byte_of 2 w ≡ b2)
      × (byte_of 3 w ≡ b3)
      × (w < 2 ^ 32)
byte_of-from_bytes b0 b1 b2 b3 h0 h1 h2 h3 = omega arith

chosen_byte-lt : (k mask d old : ℕ) → chosen_byte k mask d old < 2 ^ 8
chosen_byte-lt k mask d old = ground (arith, byte_of-lt k d, byte_of-lt k old)
  where
    byte_of-lt : (k w : ℕ) → byte_of k w < 2 ^ 8
    byte_of-lt k w = omega arith

-- Each byte of a merged word is the new one if the mask has its bit, or else the old one.
pub byte_of-merge_bytes :
    (k mask d old : ℕ)
    → k < 4
    → byte_of k (merge_bytes mask d old)
      ≡ (if take_bit k mask == 1 then byte_of k d else byte_of k old)
unfolding merge_bytes
byte_of-merge_bytes k mask d old h = by_index k h
  where
    lt : (k : ℕ) → chosen_byte k mask d old < 2 ^ 8
    lt k = chosen_byte-lt k mask d old

    bytes :
        let w = merge_bytes mask d old in
        (byte_of 0 w ≡ chosen_byte 0 mask d old)
        × (byte_of 1 w ≡ chosen_byte 1 mask d old)
        × (byte_of 2 w ≡ chosen_byte 2 mask d old)
        × (byte_of 3 w ≡ chosen_byte 3 mask d old)
        × (w < 2 ^ 32)
    bytes =
        byte_of-from_bytes (chosen_byte 0 mask d old) (chosen_byte 1 mask d old)
          (chosen_byte 2 mask d old) (chosen_byte 3 mask d old) (lt 0) (lt 1) (lt 2) (lt 3)

    by_index : (k : ℕ) → k < 4 → byte_of k (merge_bytes mask d old) ≡ chosen_byte k mask d old
    by_index zero h = bytes.0
    by_index (suc zero) h = bytes.1
    by_index (suc (suc zero)) h = bytes.2
    by_index (suc (suc (suc zero))) h = bytes.3
    by_index (suc (suc (suc (suc k)))) h = absurd (omega arith)

-- A merged word is a word.
pub merge_bytes-lt : (mask d old : ℕ) → merge_bytes mask d old < 2 ^ 32
unfolding merge_bytes
merge_bytes-lt mask d old =
    (byte_of-from_bytes (chosen_byte 0 mask d old) (chosen_byte 1 mask d old)
      (chosen_byte 2 mask d old) (chosen_byte 3 mask d old) (chosen_byte-lt 0 mask d old)
      (chosen_byte-lt 1 mask d old) (chosen_byte-lt 2 mask d old) (chosen_byte-lt 3 mask d old)).4
