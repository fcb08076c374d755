-- ===== src/GdbStub/AddrRange/Tests.antt =====
-- lib/include/gdb-stub/addr-range.hpp: ranges as keys.
use simple_riscv_emulator.Common.{◌+◌, ◌≤◌, true, ◌≡◌, ◌↔◌, refl, arith}
use simple_riscv_emulator.GdbStub.AddrRange.{AddressRange, is_same_key, is_same_key_iff}

abbrev watched : AddressRange
watched = record { start = 0x100; size = 4 }

abbrev next_word : AddressRange
next_word = record { start = 0x104; size = 4 }

-- An access to the word behind a watched one finds the watchpoint.
touching : is_same_key watched next_word ≡ true
unfolding is_same_key
touching = refl

is_same_key_iff_example :
    (is_same_key watched next_word ≡ true) ↔ ((0x100 ≤ 0x104 + 4) × (0x104 ≤ 0x100 + 4))
is_same_key_iff_example = is_same_key_iff watched next_word (omega arith) (omega arith)
