-- ===== src/GdbStub/Packet/Decoder.antt =====
-- lib/gdb-stub/packet.cpp: `Packet_decoder`. The queue's front is the head of its list. The mutex is
-- held for each change of the queue, in `push_result` and `pop_packet`, and not for a whole `push`;
-- `new_packet_available` reads an atomic flag without it. The buffer and the state belong to the one
-- thread that pushes.
use simple_riscv_emulator.Common.{
  ℕ, ◌+◌, ◌*◌, Bool, true, false, not, ◌&&◌, ◌||◌, List, [], ◌∷◌, ◌++◌, Option, none, some, leb,
  ◌==◌, if◌then◌else◌, length, Expected, ok, unexpected,
}
use simple_riscv_emulator.GdbStub.{isxdigit, hex_value}
use simple_riscv_emulator.GdbStub.Packet.{
  PacketError, bad_checksum, bad_packet, buffer_overflow, no_new_packet, get_checksum,
  remove_escape,
}
pub mod Invariant
pub mod Recovery
pub mod Calls

pub data DecoderState : Type 0 where
  waiting_dollar : DecoderState
  receiving_body : DecoderState
  receiving_checksum1 : DecoderState
  receiving_checksum2 : DecoderState

abbrev pub Packet : Type 0
Packet = Expected (List ℕ) PacketError

pub record Decoder : Type 0 where
  pub in_buffer : List ℕ
  pub out_queue : List Packet
  pub out_queue_available : Bool
  pub state : DecoderState
  pub checksum_buffer : ℕ × ℕ

abbrev pub max_buffer_size : ℕ
max_buffer_size = 1_048_576

-- A new decoder; what `checksum_buffer` holds at first is not initialised.
unfoldable pub init : ℕ × ℕ → Decoder
init garbage = record {
  in_buffer = [];
  out_queue = [];
  out_queue_available = false;
  state = waiting_dollar;
  checksum_buffer = garbage;
}

unfoldable pub from_unescaped : Option (List ℕ) → Packet
from_unescaped none = unexpected bad_packet
from_unescaped (some body) = ok body

-- `std::stoi` does not throw on two hexadecimal digits.
unfoldable pub decode_in_buffer : Decoder → Packet
unfolding from_unescaped
decode_in_buffer d =
    let (c0, c1) = d.checksum_buffer in
    if not (isxdigit c0 && isxdigit c1)
    then unexpected bad_packet
    else if not (hex_value c0 * 16 + hex_value c1 == get_checksum d.in_buffer)
    then unexpected bad_checksum
    else from_unescaped (remove_escape d.in_buffer)

-- The lambda of `push`.
unfoldable pub push_result : Decoder → Packet → Decoder
push_result d result = record d {
  out_queue = d.out_queue ++ result ∷ [];
  out_queue_available = true;
  in_buffer = [];
}

-- ACK, NAK and Ctrl-C.
abbrev pub is_signal : ℕ → Bool
is_signal c = c == b'+' || c == b'-' || c == 0x03

-- What both checksum states do with a `$` or a signal.
unfoldable pub push_checksum : Decoder → ℕ → Decoder → Decoder
unfolding push_result
push_checksum d c stored =
    if c == b'$'
    then record (push_result d (unexpected bad_packet)) { state = receiving_body }
    else if is_signal c
    then (record (push_result (push_result d (unexpected bad_packet)) (ok (c ∷ []))) {
      state = waiting_dollar;
    })
    else stored

-- One round of the loop of `push`.
unfoldable pub push_char : Decoder → DecoderState → ℕ → Decoder
unfolding push_result push_checksum decode_in_buffer
push_char d waiting_dollar c =
    if c == b'$'
    then record d { state = receiving_body }
    else if is_signal c
    then push_result d (ok (c ∷ []))
    else d
push_char d receiving_body c =
    if c == b'#'
    then record d { state = receiving_checksum1 }
    else if c == b'$'
    then record (push_result d (unexpected bad_packet)) { state = receiving_body }
    else if leb max_buffer_size (length d.in_buffer)
    then record (push_result d (unexpected buffer_overflow)) { state = waiting_dollar }
    else record d { in_buffer = d.in_buffer ++ c ∷ [] }
push_char d receiving_checksum1 c =
    push_checksum d c
      (record d { checksum_buffer = (c, d.checksum_buffer.1); state = receiving_checksum2 })
push_char d receiving_checksum2 c =
    let d' = record d { checksum_buffer = (d.checksum_buffer.0, c) } in
    push_checksum d c (record (push_result d' (decode_in_buffer d')) { state = waiting_dollar })

unfoldable pub push : Decoder → List ℕ → Decoder
unfolding push_char
push d [] = d
push d (c ∷ rest) = push (push_char d d.state c) rest

unfoldable pub new_packet_available : Decoder → Bool
new_packet_available d = d.out_queue_available

unfoldable pub is_empty : List Packet → Bool
is_empty [] = true
is_empty (p ∷ rest) = false

unfoldable pub pop_front : Decoder → List Packet → Decoder × Packet
unfolding is_empty
pop_front d [] = (d, unexpected no_new_packet)
pop_front d (packet ∷ rest) =
    (record d { out_queue = rest; out_queue_available = not (is_empty rest) }, packet)

unfoldable pub pop_packet : Decoder → Decoder × Packet
unfolding pop_front
pop_packet d = pop_front d d.out_queue
