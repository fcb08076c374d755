-- ===== src/GdbStub/Packet/Decoder/Calls.antt =====
-- lib/gdb-stub/packet.cpp: the calls of `Packet_decoder` by the thread that reads the socket and the
-- thread that serves commands, in any order. A packet that is taken while `push` runs falls between
-- two characters, as between two calls with the parts of the text; that it may fall between the two
-- results of one character (an error and a signal) is left out.
use mathlib.Core.List.{append_assoc}
use simple_riscv_emulator.Common.{
  ℕ, Bool, true, false, List, [], ◌∷◌, ◌++◌, leb, length, ◌==◌, if◌then◌else◌, ◌≡◌, refl, sym, ap,
  ◌∙◌,
}
use simple_riscv_emulator.GdbStub.Packet.Decoder.{
  Decoder, DecoderState, waiting_dollar, receiving_body, receiving_checksum1, receiving_checksum2,
  Packet, max_buffer_size, init, push_result, push_checksum, push_char, push, pop_front, pop_packet,
  is_signal, decode_in_buffer,
}
use simple_riscv_emulator.GdbStub.Packet.Decoder.Invariant.{
  IsValid, init-IsValid, push-IsValid, pop_packet-IsValid,
}

-- One thread hands over what a socket gave it, the other takes a packet.
pub data Call : Type 0 where
  received : List ℕ → Call
  taken : Call

-- What the packets that `pop_packet` hands out and the decoder add up to; an empty queue hands out
-- no packet.
unfoldable pub take : Decoder → List Packet → Decoder × List Packet
unfolding pop_packet pop_front
take d [] = (d, [])
take d (packet ∷ rest) = ((pop_packet d).0, packet ∷ [])

unfoldable pub serve : Decoder → List Call → Decoder × List Packet
unfolding take push
serve d [] = (d, [])
serve d (received input ∷ calls) = serve (push d input) calls
serve d (taken ∷ calls) =
    let (d', packets) = take d d.out_queue in let (e, more) = serve d' calls in (e, packets ++ more)

-- All that was received, in order.
unfoldable pub stream_of : List Call → List ℕ
stream_of [] = []
stream_of (received input ∷ calls) = input ++ stream_of calls
stream_of (taken ∷ calls) = stream_of calls

take-IsValid : (d : Decoder) (q : List Packet) → IsValid d → IsValid (take d q).0
unfolding take
take-IsValid d [] v = v
take-IsValid d (p ∷ rest) v = pop_packet-IsValid d v

serve-IsValid : (d : Decoder) (calls : List Call) → IsValid d → IsValid (serve d calls).0
unfolding serve
serve-IsValid d [] v = v
serve-IsValid d (received input ∷ calls) v =
    serve-IsValid (push d input) calls (push-IsValid d input v)
serve-IsValid d (taken ∷ calls) v =
    serve-IsValid (take d d.out_queue).0 calls (take-IsValid d d.out_queue v)

-- However the calls of the two threads fall, the flag that `new_packet_available` reads tells
-- whether the queue holds a packet, the buffer is never longer than its bound, and it is empty
-- between packets.
pub init-serve-IsValid :
    (garbage : ℕ × ℕ) (calls : List Call) → IsValid (serve (init garbage) calls).0
init-serve-IsValid garbage calls = serve-IsValid _ calls (init-IsValid garbage)

-- The same decoder with `ps` still queued in front.
abbrev behind : List Packet → Bool → Decoder → Decoder
behind ps flag d = record d { out_queue = ps ++ d.out_queue; out_queue_available = flag }

abbrev IsBehind : List Packet → Decoder → Decoder → Type 0
IsBehind ps d e = (flag : Bool) × (e ≡ behind ps flag d)

if_IsBehind :
    (ps : List Packet) (b : Bool) (d1 d2 e1 e2 : Decoder)
    → IsBehind ps d1 e1
    → IsBehind ps d2 e2
    → IsBehind ps (if b then d1 else d2) (if b then e1 else e2)
if_IsBehind ps true d1 d2 e1 e2 h1 h2 = h1
if_IsBehind ps false d1 d2 e1 e2 h1 h2 = h2

push_result-IsBehind :
    (ps : List Packet) (b : Bool) (d : Decoder) (p : Packet) (s : DecoderState)
    → IsBehind ps
        (record (push_result d p) { state = s })
        (record (push_result (behind ps b d) p) { state = s })
unfolding push_result
push_result-IsBehind ps b d p s = (true, rw append_assoc refl)

push_checksum-IsBehind :
    (ps : List Packet) (b : Bool) (d : Decoder) (c : ℕ) (d' e' : Decoder)
    → IsBehind ps d' e'
    → IsBehind ps (push_checksum d c d') (push_checksum (behind ps b d) c e')
unfolding push_checksum push_result
push_checksum-IsBehind ps b d c d' e' h =
    if_IsBehind ps (c == b'$') _ _ _ _ (push_result-IsBehind ps b d _ receiving_body)
      (if_IsBehind ps (is_signal c) _ _ _ _ (true, simp append_assoc) h)

push_char-IsBehind :
    (ps : List Packet) (b : Bool) (d : Decoder) (s : DecoderState) (c : ℕ)
    → IsBehind ps (push_char d s c) (push_char (behind ps b d) s c)
unfolding push_char decode_in_buffer
push_char-IsBehind ps b d waiting_dollar c =
    if_IsBehind ps (c == b'$') _ _ _ _ (b, refl)
      (if_IsBehind ps (is_signal c) _ _ _ _ (push_result-IsBehind ps b d _ d.state) (b, refl))
push_char-IsBehind ps b d receiving_body c =
    if_IsBehind ps (c == b'#') _ _ _ _ (b, refl)
      (if_IsBehind ps (c == b'$') _ _ _ _ (push_result-IsBehind ps b d _ receiving_body) (
        if_IsBehind ps (leb max_buffer_size (length d.in_buffer)) _ _ _ _
          (push_result-IsBehind ps b d _ waiting_dollar) (b, refl)))
push_char-IsBehind ps b d receiving_checksum1 c = push_checksum-IsBehind ps b d c _ _ (b, refl)
push_char-IsBehind ps b d receiving_checksum2 c = push_checksum-IsBehind ps b d c _ _ (
    push_result-IsBehind ps b (record d { checksum_buffer = (d.checksum_buffer.0, c) }) _
      waiting_dollar)

push-IsBehind :
    (ps : List Packet) (b : Bool) (d : Decoder) (input : List ℕ)
    → IsBehind ps (push d input) (push (behind ps b d) input)
unfolding push
push-IsBehind ps b d [] = (b, refl)
push-IsBehind ps b d (c ∷ rest) =
    let (b', e) = push_char-IsBehind ps b d d.state c in
    rw e (push-IsBehind ps b' (push_char d d.state c) rest)

-- Packets are the same however the input is cut.
push-append : (d : Decoder) (s t : List ℕ) → push d (s ++ t) ≡ push (push d s) t
unfolding push
push-append d [] t = refl
push-append d (c ∷ s) t = push-append (push_char d d.state c) s t

pop_packet-behind :
    (d : Decoder) (p : Packet) (rest : List Packet)
    → d.out_queue ≡ p ∷ rest
    → d ≡ behind (p ∷ []) d.out_queue_available (pop_packet d).0
unfolding pop_packet pop_front
pop_packet-behind d p rest e = ap (λ q. record d { out_queue = q }) e ∙ rw e refl

-- A packet that is taken early is the one that would be taken late.
take-push :
    (d : Decoder) (q : List Packet)
    → d.out_queue ≡ q
    → (input : List ℕ)
    → (take d q).1 ++ (push (take d q).0 input).out_queue ≡ (push d input).out_queue
unfolding take
take-push d [] e input = refl
take-push d (p ∷ rest) e input =
    let (b, same) = push-IsBehind (p ∷ []) d.out_queue_available (pop_packet d).0 input in
    sym (
      ap (λ d'. (push d' input).out_queue) (pop_packet-behind d p rest e)
      ∙ ap (λ d'. d'.out_queue) same)

-- The packets that are handed out, and those still queued, are those that one call with all the
-- input would queue, in its order: neither the cuts of the input nor the moments at which packets
-- are taken change, lose or repeat one.
pub serve-stream_of :
    (d : Decoder) (calls : List Call)
    → (serve d calls).1 ++ (serve d calls).0.out_queue ≡ (push d (stream_of calls)).out_queue
unfolding serve stream_of
serve-stream_of d [] = refl
serve-stream_of d (received input ∷ calls) = rw push-append (serve-stream_of (push d input) calls)
serve-stream_of d (taken ∷ calls) = rw append_assoc (
    ap (λ q. (take d d.out_queue).1 ++ q) (serve-stream_of (take d d.out_queue).0 calls)
    ∙ take-push d d.out_queue refl (stream_of calls))
