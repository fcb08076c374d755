-- ===== src/GdbStub/Packet/Decoder/Recovery.antt =====
-- lib/gdb-stub/packet.cpp: `Packet_decoder::push` on a whole packet, from any state.
use mathlib.Core.List.{append_assoc, append-nil}
use simple_riscv_emulator.Common.{
  ℕ, ◌+◌, ◌*◌, ◌≤◌, true, ◌&&◌, List, [], ◌∷◌, ◌++◌, length, length-append, ◌<◌, ◌≡◌, ◌≢◌, refl, ap,
  ◌∙◌, arith, unexpected, not, ◌==◌, if◌then◌else◌,
}
use simple_riscv_emulator.GdbStub.{All, isxdigit, hex_value}
use simple_riscv_emulator.GdbStub.Packet.{bad_packet, get_checksum, remove_escape}
use simple_riscv_emulator.GdbStub.Packet.Decoder.{
  Decoder, DecoderState, waiting_dollar, receiving_body, receiving_checksum1, receiving_checksum2,
  Packet, max_buffer_size, push_result, push_checksum, push_char, push, decode_in_buffer,
  from_unescaped,
}
use simple_riscv_emulator.GdbStub.Packet.Decoder.Invariant.{IsValid, IsIdle}

-- What a packet's body is made of.
abbrev pub IsBodyChar : ℕ → Type 0
IsBodyChar c = (c ≢ b'$') × (c ≢ b'#')

-- A packet that a new one cuts short.
unfoldable pub interrupted : DecoderState → List Packet
interrupted waiting_dollar = []
interrupted receiving_body = unexpected bad_packet ∷ []
interrupted receiving_checksum1 = unexpected bad_packet ∷ []
interrupted receiving_checksum2 = unexpected bad_packet ∷ []

push_dollar :
    (d : Decoder) (s : DecoderState)
    → d.state ≡ s
    → IsIdle s d.in_buffer
    → push_char d s b'$' ≡ record d {
      in_buffer = [];
      out_queue = d.out_queue ++ interrupted s;
      out_queue_available = (push_char d s b'$').out_queue_available;
      state = receiving_body;
    }
unfolding push_char push_checksum push_result interrupted
push_dollar d waiting_dollar e i = rw (append-nil, i) refl
push_dollar d receiving_body e i = refl
push_dollar d receiving_checksum1 e i = refl
push_dollar d receiving_checksum2 e i = refl

push_char-body :
    (d : Decoder) (c : ℕ)
    → IsBodyChar c
    → length d.in_buffer < max_buffer_size
    → push_char d receiving_body c ≡ record d { in_buffer = d.in_buffer ++ c ∷ [] }
unfolding push_char
push_char-body d c h l = ground arith

push-body :
    (d : Decoder) (body rest : List ℕ)
    → d.state ≡ receiving_body
    → All IsBodyChar body
    → length d.in_buffer + length body ≤ max_buffer_size
    → push d (body ++ rest) ≡ push (record d { in_buffer = d.in_buffer ++ body }) rest
unfolding push
push-body d [] rest s h l = rw append-nil refl
push-body d (c ∷ body) rest s h l =
    ap (λ t. push (push_char d t c) (body ++ rest)) s
    ∙ ap (λ d'. push d' (body ++ rest)) (push_char-body d c h.0 (omega arith))
    ∙ push-body (record d { in_buffer = d.in_buffer ++ c ∷ [] }) body rest s h.1
        (omega (arith, length-append d.in_buffer (c ∷ [])))
    ∙ ap (λ b. push (record d { in_buffer = b }) rest) (append_assoc d.in_buffer (c ∷ []) body)

push_checksum-isxdigit :
    (d : Decoder) (c : ℕ) (stored : Decoder) → isxdigit c ≡ true → push_checksum d c stored ≡ stored
unfolding push_checksum
push_checksum-isxdigit d c stored x = ground arith

if_true : (m n : ℕ) (p q : Packet) → m ≡ n → (if not (m == n) then p else q) ≡ q
if_true m n p q e = ground arith

decode_in_buffer-checked :
    (d : Decoder) (c0 c1 : ℕ)
    → (isxdigit c0 && isxdigit c1) ≡ true
    → hex_value c0 * 16 + hex_value c1 ≡ get_checksum d.in_buffer
    → decode_in_buffer (record d { checksum_buffer = (c0, c1) })
      ≡ from_unescaped (remove_escape d.in_buffer)
unfolding decode_in_buffer
decode_in_buffer-checked d c0 c1 x e =
    rw x (if_true (hex_value c0 * 16 + hex_value c1) (get_checksum d.in_buffer) _ _ e)

push-checksum :
    (d : Decoder) (c0 c1 : ℕ)
    → d.state ≡ receiving_body
    → (isxdigit c0 && isxdigit c1) ≡ true
    → hex_value c0 * 16 + hex_value c1 ≡ get_checksum d.in_buffer
    → push d (b'#' ∷ c0 ∷ c1 ∷ [])
      ≡ record (push_result d (from_unescaped (remove_escape d.in_buffer))) {
        state = waiting_dollar;
        checksum_buffer = (c0, c1);
      }
unfolding push push_char push_result
push-checksum d c0 c1 s x e =
    let first = record d { state = receiving_checksum1 } in
    let second = record d {
      state = receiving_checksum2;
      checksum_buffer = (c0, d.checksum_buffer.1);
    } in
    ap (λ t. push (push_char d t b'#') (c0 ∷ c1 ∷ [])) s
    ∙ ap (λ d'. push d' (c1 ∷ [])) (push_checksum-isxdigit first c0 second (ground arith))
    ∙ push_checksum-isxdigit second c1 _ (ground arith)
    ∙ ap (λ p. record (push_result d p) { state = waiting_dollar; checksum_buffer = (c0, c1) })
        (decode_in_buffer-checked second c0 c1 x e)

-- A whole packet whose checksum is right is decoded, whatever came before it: from every valid
-- state, the queue grows by the packet's text, behind the error for a packet that it cuts short,
-- and the decoder waits for the next one.
pub push-frame :
    (d : Decoder) (body : List ℕ) (c0 c1 : ℕ)
    → IsValid d
    → All IsBodyChar body
    → length body ≤ max_buffer_size
    → (isxdigit c0 && isxdigit c1) ≡ true
    → hex_value c0 * 16 + hex_value c1 ≡ get_checksum body
    → let after = push d (b'$' ∷ body ++ b'#' ∷ c0 ∷ c1 ∷ []) in
      (after.out_queue
        ≡ d.out_queue ++ interrupted d.state ++ from_unescaped (remove_escape body) ∷ [])
      × (after.state ≡ waiting_dollar)
unfolding push
push-frame d body c0 c1 v h l x e =
    let opened = push_dollar d d.state refl v.idle in
    let ready = record d {
      in_buffer = [];
      out_queue = d.out_queue ++ interrupted d.state;
      out_queue_available = (push_char d d.state b'$').out_queue_available;
      state = receiving_body;
    } in
    let run =
      ap (λ d'. push d' (body ++ b'#' ∷ c0 ∷ c1 ∷ [])) opened
      ∙ push-body ready body _ refl h (omega arith)
      ∙ push-checksum (record ready { in_buffer = body }) c0 c1 refl x e in
    (ap (λ d'. d'.out_queue) run ∙ rw append_assoc refl, ap (λ d'. d'.state) run)
