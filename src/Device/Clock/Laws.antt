-- ===== src/Device/Clock/Laws.antt =====
-- The clock counts in 64 bits, and its two words can be read together.
use simple_riscv_emulator.Common.{
  ℕ, zero, suc, ◌+◌, ◌*◌, ◌/◌, ◌%◌, ◌^◌, ◌<◌, ◌≡◌, refl, sym, arith, some, ok, u64, bit_or_fields,
  bit_and_mask,
}
use simple_riscv_emulator.Device.Clock.{Clock, Reg, get_64, set_64, tick, read}

pub record IsWords (r : Reg) : Type 0 where
  pub low : r.low < 2 ^ 32
  pub high : r.high < 2 ^ 32

get_64-sum : (r : Reg) → IsWords r → get_64 r ≡ r.high * 2 ^ 32 + r.low
unfolding get_64
get_64-sum r h = bit_or_fields 32 r.high r.low h.low

set_64-words : (v : ℕ) → v < 2 ^ 64 → ((set_64 v).low ≡ v % 2 ^ 32) × ((set_64 v).high ≡ v / 2 ^ 32)
unfolding set_64
set_64-words v h = (ground (arith, bit_and_mask 32 v), ground (arith, bit_and_mask 32 (v / 2 ^ 32)))

get_64-set_64 : (v : ℕ) → v < 2 ^ 64 → get_64 (set_64 v) ≡ v
get_64-set_64 v h =
    let (low, high) = set_64-words v h in
    let words : IsWords (set_64 v) = record {
      low = omega (arith, low);
      high = omega (arith, high);
    } in
    omega (arith, get_64-sum (set_64 v) words, low, high)

-- A tick adds 1 to the timer, modulo 2 ^ 64, and keeps its two halves words.
pub tick-timer :
    (c : Clock) (mip : ℕ)
    → (get_64 (tick c mip).0.timer ≡ (get_64 c.timer + 1) % 2 ^ 64) × IsWords (tick c mip).0.timer
unfolding tick
tick-timer c mip =
    let v = u64 (get_64 c.timer + 1) in
    let (low, high) = set_64-words v (omega arith) in
    (get_64-set_64 v (omega arith), record { low = omega (arith, low); high = omega (arith, high) })

-- Any number of ticks.
abbrev pub ticks : ℕ → Clock → ℕ → Clock
ticks zero c mip = c
ticks (suc n) c mip = let before = ticks n c mip in (tick before mip).0

ticks-templow : (n : ℕ) (c : Clock) (mip : ℕ) → (ticks n c mip).counter_templow ≡ c.counter_templow
unfolding tick
ticks-templow zero c mip = refl
ticks-templow (suc n) c mip = ticks-templow n c mip

read_high :
    (c : Clock) → read c 4 ≡ (record c { counter_templow = some c.timer.low }, ok c.timer.high)
unfolding read
read_high c = refl

read_low : (c : Clock) (v : ℕ) → c.counter_templow ≡ some v → (read c 0).1 ≡ ok v
unfolding read
read_low c v e = ground (arith, e)

-- If the halves of the timer are words, a read of its high word, any number of ticks, and a read of
-- its low word give the two halves of the timer as it was at the first read.
pub read-ticks :
    (c : Clock) (n mip : ℕ)
    → IsWords c.timer
    → (high : ℕ) × (low : ℕ) × ((read c 4).1 ≡ ok high)
      × ((read (ticks n (read c 4).0 mip) 0).1 ≡ ok low)
      × (high * 2 ^ 32 + low ≡ get_64 c.timer)
read-ticks c n mip h =
    let latched = record c { counter_templow = some c.timer.low } in
    rw (read_high c) (
      c.timer.high,
      c.timer.low,
      refl,
      read_low (ticks n latched mip) c.timer.low (ticks-templow n latched mip),
      sym (get_64-sum c.timer h),
    )
