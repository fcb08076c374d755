-- ===== src/Device/Clock.antt =====
-- lib/device/peripheral/clock.cpp and lib/include/device/periph/clock.hpp: `Clock`, a 64-bit timer
-- with a compare register, read and written in halves.
pub mod Laws
mod Tests
use simple_riscv_emulator.Common.{
  ℕ, ◌+◌, ◌/◌, ◌^◌, Option, none, some, ltb, ◌==◌, not, if◌then◌else◌, bit_and, bit_or, u32, u64,
  ◌<<<◌, ◌>>>◌, Expected, ok, unexpected,
}
use simple_riscv_emulator.Bitset.{expand_byte_mask, choose_bits}
use simple_riscv_emulator.Core.Memory.{MemoryError, unaligned, access_fault, not_supported}

pub record Reg : Type 0 where
  pub low : ℕ
  pub high : ℕ

unfoldable pub get_64 : Reg → ℕ
get_64 r = bit_or (r.high <<< 32) r.low

unfoldable pub set_64 : ℕ → Reg
set_64 v = record { low = u32 (bit_and v 0xffff_ffff); high = u32 (bit_and (v >>> 32) 0xffff_ffff) }

pub record Clock : Type 0 where
  pub timer : Reg
  pub comp : Reg
  pub counter_templow : Option ℕ
  pub comp_templow : Option ℕ

-- `make_shared` clears the registers.
abbrev pub init : Clock
init = record {
  timer = record { low = 0; high = 0 };
  comp = record { low = 0; high = 0 };
  counter_templow = none;
  comp_templow = none;
}

-- `mask.expand_byte_mask().choose_bits(data, old)`.
abbrev pub masked : ℕ → ℕ → ℕ → ℕ
masked mask d old = choose_bits (expand_byte_mask 4 mask) d old

unfoldable pub write : Clock → ℕ → ℕ → ℕ → Clock × Expected (Unit {0}) MemoryError
write c address d mask =
    if not (bit_and address 0x3 == 0)
    then (c, unexpected unaligned)
    else if address / 4 == 0
    then (
      record c {
        timer = record c.timer { low = masked mask d c.timer.low };
        counter_templow = none;
      },
      ok tt,
    )
    else if address / 4 == 1
    then (
      record c {
        timer = record c.timer { high = masked mask d c.timer.high };
        counter_templow = none;
      },
      ok tt,
    )
    else if address / 4 == 2
    then (
      record c { comp = record c.comp { low = masked mask d c.comp.low }; comp_templow = none },
      ok tt,
    )
    else if address / 4 == 3
    then (
      record c { comp = record c.comp { high = masked mask d c.comp.high }; comp_templow = none },
      ok tt,
    )
    else (c, unexpected access_fault)

unfoldable pub read : Clock → ℕ → Clock × Expected ℕ MemoryError
read c address =
    if not (bit_and address 0x3 == 0)
    then (c, unexpected unaligned)
    else if address / 4 == 0
    then elim c.counter_templow [
      | some result ↦ (record c { counter_templow = none }, ok result)
      | none ↦ (c, ok c.timer.low)
    ]
    else if address / 4 == 1
    then (record c { counter_templow = some c.timer.low }, ok c.timer.high)
    else if address / 4 == 2
    then elim c.comp_templow [
      | some result ↦ (record c { comp_templow = none }, ok result)
      | none ↦ (c, ok c.comp.low)
    ]
    else if address / 4 == 3
    then (record c { comp_templow = some c.comp.low }, ok c.comp.high)
    else (c, unexpected access_fault)

-- `Periph_base::read_page`.
unfoldable pub read_page : Clock → ℕ → Clock × Expected (ℕ → ℕ) MemoryError
read_page c address = (c, unexpected not_supported)

-- `Periph_base::size`.
abbrev pub size : ℕ
size = 256

-- `tick`: the clock and the `mip` register after it.
unfoldable pub tick : Clock → ℕ → Clock × ℕ
tick c mip =
    let timer = set_64 (u64 (get_64 c.timer + 1)) in
    (
      record c { timer = timer },
      if ltb (get_64 c.comp) (get_64 timer) then bit_or mip (2 ^ 7) else mip,
    )
