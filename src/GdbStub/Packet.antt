-- ===== src/GdbStub/Packet.antt =====
-- lib/gdb-stub/packet.cpp: `algo::get_checksum` and `algo::remove_escape`, which the decoder and the
-- encoder share, and what a decoder answers. A character is its byte.
use simple_riscv_emulator.Common.{
  ℕ, ◌+◌, List, [], ◌∷◌, true, false, Option, none, some, u8, ◌==◌, if◌then◌else◌, bit_xor,
}
pub mod Decoder
pub mod Encoder
pub mod RoundTrip
mod Tests

pub data PacketError : Type 0 where
  bad_checksum : PacketError
  bad_packet : PacketError
  buffer_overflow : PacketError
  internal_error : PacketError
  no_new_packet : PacketError

-- The fold adds as `int`, to which `std::plus` promotes.
unfoldable pub sum_from : ℕ → List ℕ → ℕ
sum_from accum [] = accum
sum_from accum (c ∷ rest) = sum_from (accum + c) rest

unfoldable pub get_checksum : List ℕ → ℕ
unfolding sum_from
get_checksum body = u8 (sum_from 0 body)

unfoldable pub prepend : ℕ → Option (List ℕ) → Option (List ℕ)
prepend c none = none
prepend c (some rest) = some (c ∷ rest)

-- The loop of `remove_escape`, which takes two characters in a round that starts at a `}`.
unfoldable pub remove_escape : List ℕ → Option (List ℕ)
unfolding prepend
remove_escape [] = some []
remove_escape (c ∷ []) = if c == b'}' then none else some (c ∷ [])
remove_escape (c ∷ c' ∷ rest) = elim (c == b'}') [
  | true ↦ (if c' == b'}' then none else prepend (bit_xor c' 0x20) (remove_escape rest))
  | false ↦ prepend c (remove_escape (c' ∷ rest))
]
