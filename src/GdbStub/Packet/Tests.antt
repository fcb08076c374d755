-- ===== src/GdbStub/Packet/Tests.antt =====
-- lib/gdb-stub/packet.cpp: runs of the decoder and the encoder on short texts.
use simple_riscv_emulator.Common.{
  ℕ, false, List, [], ◌∷◌, ◌++◌, ◌≡◌, refl, some, ok, unexpected, arith,
}
use simple_riscv_emulator.GdbStub.{All}
use simple_riscv_emulator.GdbStub.Packet.{bad_checksum, get_checksum, remove_escape}
use simple_riscv_emulator.GdbStub.Packet.Decoder.{
  Decoder, init, push, waiting_dollar, from_unescaped,
}
use simple_riscv_emulator.GdbStub.Packet.Decoder.Invariant.{IsValid, init-IsValid, push-IsValid}
use simple_riscv_emulator.GdbStub.Packet.Decoder.Recovery.{IsBodyChar, interrupted, push-frame}
use simple_riscv_emulator.GdbStub.Packet.Decoder.Calls.{
  received, taken, serve, stream_of, init-serve-IsValid, serve-stream_of,
}
use simple_riscv_emulator.GdbStub.Packet.Encoder.{encode, frame}
use simple_riscv_emulator.GdbStub.Packet.Encoder.Runs.{expand}
use simple_riscv_emulator.GdbStub.Packet.RoundTrip.{encode-expand, push-encode}

abbrev start : Decoder
unfolding init
start = init (0, 0)

abbrev ok_text : List ℕ
ok_text = b'O' ∷ b'K' ∷ []

encode_ok : encode ok_text ≡ b'$' ∷ b'O' ∷ b'K' ∷ b'#' ∷ b'9' ∷ b'a' ∷ []
unfolding encode
encode_ok = refl

-- A run of ten zeros.
encode_zeros :
    encode (b'0' ∷ b'0' ∷ b'0' ∷ b'0' ∷ b'0' ∷ b'0' ∷ b'0' ∷ b'0' ∷ b'0' ∷ b'0' ∷ [])
    ≡ b'$' ∷ b'0' ∷ b'*' ∷ b'&' ∷ b'#' ∷ b'8' ∷ b'0' ∷ []
unfolding encode
encode_zeros = refl

-- The second `#` is written as it is, and ends the packet for its reader.
encode_hashes : encode (b'#' ∷ b'#' ∷ []) ≡ b'$' ∷ b'}' ∷ 3 ∷ b'#' ∷ b'#' ∷ b'a' ∷ b'3' ∷ []
unfolding encode
encode_hashes = refl

wrong_checksum :
    (push start (b'$' ∷ b'O' ∷ b'K' ∷ b'#' ∷ b'9' ∷ b'b' ∷ [])).out_queue
    ≡ unexpected bad_checksum ∷ []
unfolding push start get_checksum
wrong_checksum = refl

init-serve-IsValid_example :
    IsValid
      (serve (init (0, 0)) (received (b'+' ∷ b'$' ∷ []) ∷ taken ∷ received (b'm' ∷ []) ∷ [])).0
init-serve-IsValid_example =
    init-serve-IsValid (0, 0) (received (b'+' ∷ b'$' ∷ []) ∷ taken ∷ received (b'm' ∷ []) ∷ [])

abbrev half : List ℕ
half = b'+' ∷ b'$' ∷ b'O' ∷ b'K' ∷ []

abbrev rest : List ℕ
rest = b'#' ∷ b'9' ∷ b'a' ∷ b'-' ∷ []

serve-stream_of_example :
    (serve start (received half ∷ taken ∷ received rest ∷ taken ∷ [])).1
      ++ (serve start (received half ∷ taken ∷ received rest ∷ taken ∷ [])).0.out_queue
    ≡ (push start (stream_of (received half ∷ taken ∷ received rest ∷ taken ∷ []))).out_queue
serve-stream_of_example = serve-stream_of start (received half ∷ taken ∷ received rest ∷ taken ∷ [])

-- A decoder in the middle of a packet.
abbrev busy : Decoder
busy = push start (b'$' ∷ b'm' ∷ b'1' ∷ [])

busy-IsValid : IsValid busy
unfolding start init
busy-IsValid = push-IsValid start (b'$' ∷ b'm' ∷ b'1' ∷ []) (init-IsValid (0, 0))

sum_ok : get_checksum ok_text ≡ 0x9a
unfolding get_checksum
sum_ok = refl

push-frame_example :
    ((push busy (b'$' ∷ ok_text ++ b'#' ∷ b'9' ∷ b'a' ∷ [])).out_queue
      ≡ busy.out_queue ++ interrupted busy.state ++ from_unescaped (remove_escape ok_text) ∷ [])
    × ((push busy (b'$' ∷ ok_text ++ b'#' ∷ b'9' ∷ b'a' ∷ [])).state ≡ waiting_dollar)
push-frame_example =
    push-frame busy ok_text b'9' b'a' busy-IsValid (ground arith) (omega arith) refl
      (rw sum_ok refl)

encode-expand_example :
    (body : List ℕ) × (encode (b'O' ∷ b'#' ∷ b'0' ∷ b'0' ∷ b'0' ∷ b'0' ∷ []) ≡ frame body)
    × All IsBodyChar body
    × (remove_escape (expand false 0 body) ≡ some (b'O' ∷ b'#' ∷ b'0' ∷ b'0' ∷ b'0' ∷ b'0' ∷ []))
encode-expand_example = encode-expand (b'O' ∷ b'#' ∷ b'0' ∷ b'0' ∷ b'0' ∷ b'0' ∷ []) (ground arith)

push-encode_example :
    ((push busy (encode ok_text)).out_queue
      ≡ busy.out_queue ++ interrupted busy.state ++ ok ok_text ∷ [])
    × ((push busy (encode ok_text)).state ≡ waiting_dollar)
push-encode_example = push-encode busy ok_text busy-IsValid (ground arith) (omega arith)
