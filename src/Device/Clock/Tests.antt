-- ===== src/Device/Clock/Tests.antt =====
-- lib/device/peripheral/clock.cpp: the clock at a carry into its high word.
use simple_riscv_emulator.Common.{ℕ, ◌+◌, ◌-◌, ◌*◌, ◌^◌, ◌≡◌, arith, ok}
use simple_riscv_emulator.Device.Clock.{Clock, get_64, read, init}
use simple_riscv_emulator.Device.Clock.Laws.{ticks, read-ticks}

abbrev full : Clock
full = record init { timer = record { low = 2 ^ 32 - 1; high = 7 } }

read-ticks_example :
    (high : ℕ) × (low : ℕ) × ((read full 4).1 ≡ ok high)
    × ((read (ticks 3 (read full 4).0 0) 0).1 ≡ ok low)
    × (high * 2 ^ 32 + low ≡ get_64 full.timer)
read-ticks_example = read-ticks full 3 0 record { low = omega arith; high = omega arith }
