-- ===== src/GdbStub/Packet/Decoder/Invariant.antt =====
-- lib/gdb-stub/packet.cpp: what holds of a `Packet_decoder` between two calls.
use simple_riscv_emulator.Common.{
  ℕ, ◌≤◌, Bool, true, false, not, List, [], ◌∷◌, ◌++◌, length, length-append, ◌≡◌, ◌≢◌, refl, subst,
  sym, arith, if◌then◌else◌, ◌==◌, ok, leb,
}
use simple_riscv_emulator.GdbStub.Packet.Decoder.{
  Decoder, DecoderState, waiting_dollar, receiving_body, receiving_checksum1, receiving_checksum2,
  Packet, max_buffer_size, init, is_empty, push_result, push_checksum, push_char, push, pop_front,
  pop_packet, is_signal,
}

-- Between packets the buffer is empty.
abbrev pub IsIdle : DecoderState → List ℕ → Type 0
IsIdle waiting_dollar buffer = buffer ≡ []
IsIdle receiving_body buffer = Unit
IsIdle receiving_checksum1 buffer = Unit
IsIdle receiving_checksum2 buffer = Unit

-- The flag tells whether the queue holds a packet, and the buffer stays below its bound.
pub record IsValid (d : Decoder) : Type 0 where
  pub flag : d.out_queue_available ≡ not (is_empty d.out_queue)
  pub bounded : length d.in_buffer ≤ max_buffer_size
  pub idle : IsIdle d.state d.in_buffer

pub init-IsValid : (garbage : ℕ × ℕ) → IsValid (init garbage)
unfolding init is_empty
init-IsValid garbage = record { flag = refl; bounded = omega arith; idle = refl }

is_empty-snoc : (ps : List Packet) (p : Packet) → is_empty (ps ++ p ∷ []) ≡ false
unfolding is_empty
is_empty-snoc [] p = refl
is_empty-snoc (q ∷ ps) p = refl

empty-IsIdle : (s : DecoderState) → IsIdle s []
empty-IsIdle waiting_dollar = refl
empty-IsIdle receiving_body = tt
empty-IsIdle receiving_checksum1 = tt
empty-IsIdle receiving_checksum2 = tt

-- Whatever state follows it, a result leaves the buffer empty and the flag up.
push_result-IsValid :
    (d : Decoder) (p : Packet) (s : DecoderState) → IsValid (record (push_result d p) { state = s })
unfolding push_result
push_result-IsValid d p s = record {
  flag = rw (is_empty-snoc d.out_queue p) refl;
  bounded = omega arith;
  idle = empty-IsIdle s;
}

if_IsValid :
    (b : Bool) (x y : Decoder)
    → (b ≡ true → IsValid x)
    → (b ≡ false → IsValid y)
    → IsValid (if b then x else y)
if_IsValid true x y t f = t refl
if_IsValid false x y t f = f refl

-- A step to another state than the first keeps what holds.
receiving-IsValid :
    (d : Decoder) (s : DecoderState) (cs : ℕ × ℕ)
    → s ≢ waiting_dollar
    → IsValid d
    → IsValid (record d { state = s; checksum_buffer = cs })
receiving-IsValid d waiting_dollar cs ne v = absurd (ne refl)
receiving-IsValid d receiving_body cs ne v = record {
  flag = v.flag;
  bounded = v.bounded;
  idle = tt;
}
receiving-IsValid d receiving_checksum1 cs ne v = record {
  flag = v.flag;
  bounded = v.bounded;
  idle = tt;
}
receiving-IsValid d receiving_checksum2 cs ne v = record {
  flag = v.flag;
  bounded = v.bounded;
  idle = tt;
}

push_checksum-IsValid :
    (d : Decoder) (c : ℕ) (stored : Decoder) → IsValid stored → IsValid (push_checksum d c stored)
unfolding push_checksum
push_checksum-IsValid d c stored v =
    if_IsValid (c == b'$') _ _ (λ _. push_result-IsValid d _ receiving_body)
      λ _.
        if_IsValid (is_signal c) _ _ (λ _. push_result-IsValid (push_result d _) _ waiting_dollar)
          λ _. v

push_char-IsValid :
    (d : Decoder) (s : DecoderState) (c : ℕ) → d.state ≡ s → IsValid d → IsValid (push_char d s c)
unfolding push_char push_checksum
push_char-IsValid d waiting_dollar c e v =
    if_IsValid (c == b'$') _ _ (λ _. receiving-IsValid d receiving_body _ (ground arith) v)
      λ _. if_IsValid (is_signal c) _ _ (λ _. push_result-IsValid d (ok (c ∷ [])) d.state) λ _. v
push_char-IsValid d receiving_body c e v =
    if_IsValid (c == b'#') _ _ (λ _. receiving-IsValid d receiving_checksum1 _ (ground arith) v)
      λ _.
        if_IsValid (c == b'$') _ _ (λ _. push_result-IsValid d _ receiving_body)
          λ _.
            if_IsValid (leb max_buffer_size (length d.in_buffer)) _ _
              (λ _. push_result-IsValid d _ waiting_dollar)
              λ room. record {
                flag = v.flag;
                bounded = ground (arith, length-append d.in_buffer (c ∷ []));
                idle = subst (λ t. IsIdle t (d.in_buffer ++ c ∷ [])) (sym e) tt;
              }
push_char-IsValid d receiving_checksum1 c e v =
    push_checksum-IsValid d c _ (receiving-IsValid d _ _ (ground arith) v)
push_char-IsValid d receiving_checksum2 c e v =
    push_checksum-IsValid d c _ (
      push_result-IsValid (record d { checksum_buffer = (d.checksum_buffer.0, c) }) _
        waiting_dollar)

pub push-IsValid : (d : Decoder) (input : List ℕ) → IsValid d → IsValid (push d input)
unfolding push
push-IsValid d [] v = v
push-IsValid d (c ∷ rest) v =
    push-IsValid (push_char d d.state c) rest (push_char-IsValid d d.state c refl v)

pop_front-IsValid :
    (d : Decoder) (q : List Packet) → d.out_queue ≡ q → IsValid d → IsValid (pop_front d q).0
unfolding pop_front
pop_front-IsValid d [] e v = v
pop_front-IsValid d (p ∷ rest) e v = record { flag = refl; bounded = v.bounded; idle = v.idle }

pub pop_packet-IsValid : (d : Decoder) → IsValid d → IsValid (pop_packet d).0
unfolding pop_packet
pop_packet-IsValid d v = pop_front-IsValid d d.out_queue refl v
