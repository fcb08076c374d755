-- ===== src/Device/BlockMemory/Tests.antt =====
-- lib/device/block-memory.cpp: a memory of 8192 bytes, its reads and its writes.
use simple_riscv_emulator.Common.{ℕ, ◌/◌, ◌≡◌, arith, refl, ◌==◌, if◌then◌else◌, ok, unexpected}
use simple_riscv_emulator.Core.Memory.{access_fault}
use simple_riscv_emulator.Device.BlockMemory.{
  BlockMemory, FillPolicy, Page, create, lock, read, write, merge_bytes, store_bytes, is_too_short,
  touch_page, new_page, update,
}
use simple_riscv_emulator.Device.BlockMemory.Contents.{
  IsValid, IsWord, contents, create-IsValid, write-contents, write_locked,
}

abbrev pub no_random : ℕ → Page
no_random i k = 0

abbrev pub small : BlockMemory
small = create 8192 FillPolicy.cdcdcdcd

pub small-IsValid : IsValid small
small-IsValid = create-IsValid 8192 FillPolicy.cdcdcdcd (omega arith)

pub small-IsWord : IsWord no_random small 4100
unfolding create
small-IsWord = record { in_range = omega arith; aligned = omega arith; long = omega arith }

written : (read no_random (write no_random small 4100 0x1122_3344 0b0110).0 4100).1 ≡ ok 0xcd22_33cd
unfolding create read write store_bytes is_too_short touch_page new_page update merge_bytes
written = refl

write-contents_example :
    ((write no_random small 4100 0x1122_3344 0b0110).1 ≡ ok tt)
    × (contents no_random (write no_random small 4100 0x1122_3344 0b0110).0 1025 ≡ (
        if 1025 == 4100 / 4
        then merge_bytes 0b0110 0x1122_3344 (contents no_random small 1025)
        else contents no_random small 1025))
unfolding create
write-contents_example =
    write-contents no_random small 4100 0x1122_3344 0b0110 1025 small-IsValid small-IsWord refl
      (omega arith)

write_locked_example :
    write no_random (lock small) 4100 7 0b1111 ≡ (lock small, unexpected access_fault)
unfolding create lock
write_locked_example = write_locked no_random (lock small) 4100 7 0b1111 refl (omega arith)
