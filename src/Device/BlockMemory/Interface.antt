-- ===== src/Device/BlockMemory/Interface.antt =====
-- `Block_memory` as a `Memory_interface`, which is an array of words at the addresses in range.
use simple_riscv_emulator.Common.{
  ℕ, ◌/◌, ◌^◌, ◌<◌, ◌≡◌, ◌≢◌, refl, false, Bool-cases, inl, inr, ◌==◌, ◌&&◌, if◌then◌else◌, ◌∙◌,
}
use simple_riscv_emulator.Core.Memory.{MemoryInterface, byte_of}
use simple_riscv_emulator.Bitset.{take_bit}
use simple_riscv_emulator.Core.Memory.WordMemory.{WordMemory}
use simple_riscv_emulator.Device.BlockMemory.{BlockMemory, Page, size, read, read_page, write}
use simple_riscv_emulator.Device.BlockMemory.Contents.{
  IsValid, IsWord, contents, read-contents, write-contents, write-KeepsShape,
}
use simple_riscv_emulator.Device.BlockMemory.Merge.{byte_of-merge_bytes, merge_bytes-lt}

module _ (random : ℕ → Page) where
  abbrev pub block_memory : MemoryInterface BlockMemory
  block_memory = record {
    read = read random;
    read_page = read_page random;
    write = write random;
    size = size;
  }

  -- A word in range of an unlocked memory that holds words only.
  pub record IsWritable (b : BlockMemory) (a : ℕ) : Type 0 where
    pub valid : IsValid b
    pub slot : IsWord random b a
    pub unlocked : b.write_lock ≡ false
    pub words : (w : ℕ) → contents random b w < 2 ^ 32

  -- A write moves no address out of range.
  write-IsWord :
      (b : BlockMemory) (a x d mask : ℕ)
      → IsWord random b x
      → IsWord random (write random b a d mask).0 x
  write-IsWord b a x d mask h =
      let e = (write-KeepsShape random b a d mask).same_size in
      record { in_range = rw e h.in_range; aligned = h.aligned; long = rw e h.long }

  write-IsValid : (b : BlockMemory) (a d mask : ℕ) → IsValid b → IsValid (write random b a d mask).0
  write-IsValid b a d mask h =
      let k = write-KeepsShape random b a d mask in
      record { covered = rw (k.same_size, k.same_count) h.covered }

  write-words :
      (b : BlockMemory) (a d mask : ℕ)
      → IsWritable b a
      → mask ≢ 0
      → (w : ℕ) → contents random (write random b a d mask).0 w < 2 ^ 32
  write-words b a d mask h nonzero w =
      let (_, e) = write-contents random b a d mask w h.valid h.slot h.unlocked nonzero in
      rw e (elim (Bool-cases (w == a / 4)) [
        | inl same ↦ rw same (merge_bytes-lt mask d (contents random b w))
        | inr other ↦ rw other (h.words w)
      ])

  write_bytes :
      (b : BlockMemory) (a d mask w k : ℕ)
      → IsWritable b a
      → mask ≢ 0
      → k < 4
      → byte_of k (contents random (write random b a d mask).0 w) ≡ (
          if (w == a / 4) && (take_bit k mask == 1)
          then byte_of k d
          else byte_of k (contents random b w))
  write_bytes b a d mask w k h nonzero lt =
      let (_, e) = write-contents random b a d mask w h.valid h.slot h.unlocked nonzero in
      let merged = byte_of-merge_bytes k mask d (contents random b w) lt in
      rw e
        (elim (Bool-cases (w == a / 4)) [ inl same ↦ rw same merged | inr other ↦ rw other refl ])

  pub words : WordMemory block_memory
  words = record {
    IsReady = IsWritable;
    contents = contents random;
    is_word = λ b a h. h.words (a / 4);
    read_value = λ b a h. read-contents random b a h.valid h.slot;
    write_done = λ b a d mask h nonzero.
        (write-contents random b a d mask 0 h.valid h.slot h.unlocked nonzero).0;
    write_bytes = write_bytes;
    write_ready = λ b a x d mask h k nonzero. record {
      valid = write-IsValid b a d mask h.valid;
      slot = write-IsWord b a x d mask k.slot;
      unlocked = (write-KeepsShape random b a d mask).same_lock ∙ h.unlocked;
      words = write-words b a d mask h nonzero;
    };
  }

  pub IsWritable-IsReady : (b : BlockMemory) (a : ℕ) → IsWritable b a → words.IsReady b a
  unfolding words
  IsWritable-IsReady b a h = h
