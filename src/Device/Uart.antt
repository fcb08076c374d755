-- ===== src/Device/Uart.antt =====
-- lib/device/peripheral/uart.cpp and lib/include/device/periph/uart.hpp: `Uart`. The input stream
-- is the bytes still to come, the output the bytes written, and `random()` a sequence of numbers.
use simple_riscv_emulator.Common.{
  ℕ, ◌+◌, ◌/◌, ◌%◌, Bool, true, false, not, List, [], ◌∷◌, ◌++◌, ◌==◌, if◌then◌else◌, bit_and,
  bit_or, u8, Expected, ok, unexpected,
}
use simple_riscv_emulator.Bitset.{expand_byte_mask, choose_bits}
use simple_riscv_emulator.Core.Memory.{MemoryError, unaligned, access_fault, not_supported}

pub record Uart : Type 0 where
  pub config_reg : ℕ
  pub input : List ℕ
  pub eof : Bool
  pub drawn : ℕ
  pub output : List ℕ

-- `make_shared` clears `config_reg`.
abbrev pub init : List ℕ → Uart
init input = record { config_reg = 0; input = input; eof = false; drawn = 0; output = [] }

unfoldable pub write : Uart → ℕ → ℕ → ℕ → Uart × Expected (Unit {0}) MemoryError
write u address d mask =
    if not (bit_and address 0x3 == 0)
    then (u, unexpected unaligned)
    else if address / 4 == 0
    then (if bit_and mask 0x1 == 0 then u else record u { output = u.output ++ u8 d ∷ [] }, ok tt)
    else if address / 4 == 2
    then (record u { config_reg = choose_bits (expand_byte_mask 4 mask) d u.config_reg }, ok tt)
    else (u, unexpected access_fault)

-- `static_cast<u32>(input_stream->get())`; at the end of the input it is -1.
unfoldable pub get : Uart → List ℕ → Uart × ℕ
get u [] = (record u { eof = true }, 0xffff_ffff)
get u (c ∷ rest) = (record u { input = rest }, c)

module _ (random : ℕ → ℕ) where
  -- `random()` is called only if the stream has not ended.
  unfoldable pub status : Uart → Uart × ℕ
  status u = if u.eof then (u, 0b10) else (
    record u { drawn = u.drawn + 1 },
    bit_or 0b10 (if random u.drawn % 2 == 1 then 0b01 else 0b00),
  )

  unfoldable pub read : Uart → ℕ → Uart × Expected ℕ MemoryError
  read u address =
      if not (bit_and address 0x3 == 0)
      then (u, unexpected unaligned)
      else if address / 4 == 1
      then (let (u', c) = get u u.input in (u', ok c))
      else if address / 4 == 2
      then (u, ok u.config_reg)
      else if address / 4 == 3
      then (let (u', w) = status u in (u', ok w))
      else (u, unexpected access_fault)

-- `Periph_base::read_page`.
unfoldable pub read_page : Uart → ℕ → Uart × Expected (ℕ → ℕ) MemoryError
read_page u address = (u, unexpected not_supported)

-- `Periph_base::size`.
abbrev pub size : ℕ
size = 256

-- `set_input_stream`: another stream, which has not ended.
unfoldable pub set_input_stream : Uart → List ℕ → Uart
set_input_stream u input = record u { input = input; eof = false }
