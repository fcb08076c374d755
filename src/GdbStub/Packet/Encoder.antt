-- ===== src/GdbStub/Packet/Encoder.antt =====
-- lib/gdb-stub/packet.cpp: `Packet_encoder`.
use simple_riscv_emulator.Common.{
  ℕ, ◌+◌, ◌-◌, Bool, ◌||◌, not, List, [], ◌∷◌, ◌++◌, leb, ◌==◌, if◌then◌else◌, replicate, u8,
  bit_xor,
}
use simple_riscv_emulator.GdbStub.{hex_byte}
use simple_riscv_emulator.GdbStub.Packet.{get_checksum}
pub mod Runs

pub record Encoder : Type 0 where
  pub stream : List ℕ
  pub last_char : ℕ
  pub repeat : ℕ

unfoldable pub init : Encoder
init = record { stream = []; last_char = 0; repeat = 0 }

-- The text that `push_repeat` appends to the stream.
unfoldable pub run_text : ℕ → ℕ → List ℕ
run_text c n =
    if n == 0 || c == 0
    then []
    else if leb n 2
    then replicate n c
    else if n == 6
    then b'*' ∷ b'"' ∷ c ∷ []
    else if n == 7
    then b'*' ∷ b'"' ∷ c ∷ c ∷ []
    else b'*' ∷ u8 (n + 29) ∷ []

unfoldable pub push_repeat : Encoder → Encoder
unfolding run_text
push_repeat e = record e { stream = e.stream ++ run_text e.last_char e.repeat }

abbrev pub is_escaped : ℕ → Bool
is_escaped c = c == b'*' || c == b'$' || c == b'}' || c == b'#'

unfoldable pub escape_char : ℕ → List ℕ
escape_char c = if is_escaped c then b'}' ∷ bit_xor c 0x20 ∷ [] else c ∷ []

unfoldable pub push : Encoder → ℕ → Encoder
unfolding push_repeat escape_char
push e c =
    if c == 0
    then e
    else if not (c == e.last_char) || leb (126 - 29) e.repeat
    then (record { stream = (push_repeat e).stream ++ escape_char c; last_char = c; repeat = 0 })
    else record e { repeat = u8 (e.repeat + 1) }

unfoldable pub push_all : Encoder → List ℕ → Encoder
unfolding push
push_all e [] = e
push_all e (c ∷ rest) = push_all (push e c) rest

-- What `internal_encode` puts around the text of the stream.
unfoldable pub frame : List ℕ → List ℕ
unfolding get_checksum
frame body = b'$' ∷ body ++ b'#' ∷ hex_byte (get_checksum body)

unfoldable pub internal_encode : Encoder → List ℕ → List ℕ
unfolding push_all push_repeat frame
internal_encode e str = frame (push_repeat (push_all e str)).stream

unfoldable pub encode : List ℕ → List ℕ
unfolding internal_encode init
encode str = internal_encode init str
