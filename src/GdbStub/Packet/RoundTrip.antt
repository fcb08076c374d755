-- ===== src/GdbStub/Packet/RoundTrip.antt =====
-- lib/gdb-stub/packet.cpp: what `Packet_encoder` writes is a packet, and the readers get its text.
use mathlib.Core.List.{flat_map}
use simple_riscv_emulator.Common.{
  ℕ, ◌+◌, ◌-◌, ◌*◌, ◌/◌, ◌%◌, ◌≤◌, ◌<◌, true, false, ◌&&◌, List, [], ◌∷◌, ◌++◌, ◌||◌, not, leb,
  ◌==◌, length, length-append, ◌≡◌, ◌≢◌, inl, inr, refl, sym, ap, ◌∙◌, subst, arith, some, ok,
  Bool-cases,
}
use simple_riscv_emulator.GdbStub.{
  All, All-append, isxdigit, hex_value, hex_digit, isxdigit-hex_digit, hex_value-hex_digit,
}
use simple_riscv_emulator.GdbStub.Packet.{get_checksum, prepend, remove_escape}
use simple_riscv_emulator.GdbStub.Packet.Decoder.{
  Decoder, max_buffer_size, waiting_dollar, push, from_unescaped,
}
use simple_riscv_emulator.GdbStub.Packet.Decoder.Invariant.{IsValid}
use simple_riscv_emulator.GdbStub.Packet.Decoder.Recovery.{IsBodyChar, interrupted, push-frame}
use simple_riscv_emulator.GdbStub.Packet.Encoder.{
  init, run_text, is_escaped, escape_char, frame, encode, internal_encode,
}
use simple_riscv_emulator.GdbStub.Packet.Encoder.Runs.{
  expand, emit, push_all-emit, IsEncodable, IsWaiting, emit_new, emit_old, expand-emit,
  run_text-cases, after_escape-IsWaiting, is_escaped-cases,
}

remove_escape-plain :
    (c : ℕ) (rest : List ℕ)
    → is_escaped c ≡ false
    → remove_escape (c ∷ rest) ≡ prepend c (remove_escape rest)
unfolding remove_escape prepend
remove_escape-plain c [] plain = ground arith
remove_escape-plain c (x ∷ rest) plain = ground arith

remove_escape-escape_char :
    (c : ℕ) (rest : List ℕ) → remove_escape (escape_char c ++ rest) ≡ prepend c (remove_escape rest)
unfolding remove_escape escape_char
remove_escape-escape_char c rest = elim (is_escaped-cases c) [
  | inl e ↦ rw e refl
  | inr (inl e) ↦ rw e refl
  | inr (inr (inl e)) ↦ rw e refl
  | inr (inr (inr (inl e))) ↦ rw e refl
  | inr (inr (inr (inr plain))) ↦ rw plain (remove_escape-plain c rest plain)
]

remove_escape-flat_map : (text : List ℕ) → remove_escape (flat_map escape_char text) ≡ some text
unfolding flat_map remove_escape prepend
remove_escape-flat_map [] = refl
remove_escape-flat_map (c ∷ text) =
    remove_escape-escape_char c (flat_map escape_char text)
    ∙ ap (prepend c) (remove_escape-flat_map text)

escape_char-IsBodyChar : (c : ℕ) → All IsBodyChar (escape_char c)
unfolding escape_char
escape_char-IsBodyChar c = elim (is_escaped-cases c) [
  | inl e ↦ rw e (ground arith)
  | inr (inl e) ↦ rw e (ground arith)
  | inr (inr (inl e)) ↦ rw e (ground arith)
  | inr (inr (inr (inl e))) ↦ rw e (ground arith)
  | inr (inr (inr (inr plain))) ↦ rw plain (ground arith)
]

run_text-IsBodyChar :
    (last n t : ℕ) → IsWaiting last n t → n ≤ 97 → All IsBodyChar (run_text last n)
unfolding run_text
run_text-IsBodyChar last n t (inl (z, _)) le = rw z tt
run_text-IsBodyChar last n t (inr (nz, plain, _)) le =
    let p : IsBodyChar last = ground arith in
    elim (run_text-cases last n nz le) [
      | inl (_, e) ↦ rw e tt
      | inr (inl (_, e)) ↦ rw e (p, tt)
      | inr (inr (inl (_, e))) ↦ rw e (p, (p, tt))
      | inr (inr (inr (inl (_, e)))) ↦ rw e (ground arith)
      | inr (inr (inr (inr (inl (_, e))))) ↦ rw e (ground arith)
      | inr (inr (inr (inr (inr (lo, a, b, e))))) ↦ rw e (ground arith)
    ]

emit-IsBodyChar :
    (text : List ℕ) (last n t : ℕ)
    → IsWaiting last n t
    → n ≤ 97
    → IsEncodable last text
    → All IsBodyChar (emit last n text)
unfolding emit
emit-IsBodyChar [] last n t w le h = run_text-IsBodyChar last n t w le
emit-IsBodyChar (c ∷ text) last n t w le (nz, h, hs) =
    elim (Bool-cases (not (c == last) || leb (126 - 29) n)) [
      | inl new ↦ subst (All IsBodyChar) (sym (emit_new last n c text nz new)) (
          All-append IsBodyChar (run_text last n) _ (run_text-IsBodyChar last n t w le) (
            All-append IsBodyChar (escape_char c) (emit c 0 text) (escape_char-IsBodyChar c)
              (emit-IsBodyChar text c 0 _ (after_escape-IsWaiting c nz) (omega arith) hs)))
      | inr old ↦
          let same : c ≡ last = ground arith in
          subst (All IsBodyChar) (sym (emit_old last n c text nz old le))
            (emit-IsBodyChar text last (n + 1) t (ground arith) (ground arith) (rw (← same) hs))
    ]

-- A text without zeros, in which no character that the protocol escapes follows itself, is encoded
-- as a packet: its body has neither `$` nor `#`, its checksum follows, and the text comes back when
-- the runs are expanded as the protocol says and the escapes are removed.
pub encode-expand :
    (text : List ℕ)
    → IsEncodable 0 text
    → (body : List ℕ) × (encode text ≡ frame body)
      × All IsBodyChar body
      × (remove_escape (expand false 0 body) ≡ some text)
unfolding encode internal_encode init
encode-expand text h = (
  emit 0 0 text,
  ap frame (push_all-emit text init),
  emit-IsBodyChar text 0 0 0 (inl (refl, inr refl)) (omega arith) h,
  ap remove_escape (expand-emit text 0 0 0 (inl (refl, inr refl)) (omega arith) h)
      ∙ remove_escape-flat_map text,
)

-- No character is zero, and none follows itself.
abbrev pub IsRunless : ℕ → List ℕ → Type 0
IsRunless last [] = Unit
IsRunless last (c ∷ text) = (c ≢ 0) × (c ≢ last) × IsRunless c text

emit-IsRunless :
    (text : List ℕ) (last : ℕ) → IsRunless last text → emit last 0 text ≡ flat_map escape_char text
unfolding emit flat_map run_text
emit-IsRunless [] last h = refl
emit-IsRunless (c ∷ text) last (nz, ne, hs) =
    emit_new last 0 c text nz (ground arith)
    ∙ ap (λ l. escape_char c ++ l) (emit-IsRunless text c hs)

length-escape_char : (c : ℕ) → length (escape_char c) ≤ 2
unfolding escape_char
length-escape_char c = ground arith

length-flat_map : (text : List ℕ) → length (flat_map escape_char text) ≤ 2 * length text
unfolding flat_map
length-flat_map [] = omega arith
length-flat_map (c ∷ text) = omega (
  arith,
  length-append (escape_char c) (flat_map escape_char text),
  length-escape_char c,
  length-flat_map text,
)

flat_map-IsBodyChar : (text : List ℕ) → All IsBodyChar (flat_map escape_char text)
unfolding flat_map
flat_map-IsBodyChar [] = tt
flat_map-IsBodyChar (c ∷ text) =
    All-append IsBodyChar (escape_char c) (flat_map escape_char text) (escape_char-IsBodyChar c)
      (flat_map-IsBodyChar text)

get_checksum-lt : (body : List ℕ) → get_checksum body < 256
unfolding get_checksum
get_checksum-lt body = ground arith

checksum-isxdigit :
    (n : ℕ) → n < 256 → (isxdigit (hex_digit (n / 16)) && isxdigit (hex_digit (n % 16))) ≡ true
checksum-isxdigit n h =
    rw (isxdigit-hex_digit (n / 16) (omega arith), isxdigit-hex_digit (n % 16) (omega arith)) refl

checksum-hex_value :
    (n : ℕ) → n < 256 → hex_value (hex_digit (n / 16)) * 16 + hex_value (hex_digit (n % 16)) ≡ n
checksum-hex_value n h =
    rw (hex_value-hex_digit (n / 16) (omega arith), hex_value-hex_digit (n % 16) (omega arith))
      (omega arith)

encode-IsRunless :
    (text : List ℕ) → IsRunless 0 text → encode text ≡ frame (flat_map escape_char text)
unfolding encode internal_encode init
encode-IsRunless text h = ap frame (push_all-emit text init ∙ emit-IsRunless text 0 h)

-- The program's own decoder, in any valid state, takes what its encoder writes for a text of at
-- most half its buffer without zeros or repeated characters, and queues the text itself.
pub push-encode :
    (d : Decoder) (text : List ℕ)
    → IsValid d
    → IsRunless 0 text
    → 2 * length text ≤ max_buffer_size
    → ((push d (encode text)).out_queue ≡ d.out_queue ++ interrupted d.state ++ ok text ∷ [])
      × ((push d (encode text)).state ≡ waiting_dollar)
unfolding frame from_unescaped
push-encode d text v h l =
    let body = flat_map escape_char text in
    let sum = get_checksum-lt body in
    let written = encode-IsRunless text h in
    let (queue, state) =
      push-frame d body (hex_digit (get_checksum body / 16)) (hex_digit (get_checksum body % 16)) v
        (flat_map-IsBodyChar text) (omega (arith, length-flat_map text))
        (checksum-isxdigit (get_checksum body) sum) (checksum-hex_value (get_checksum body) sum) in
    (
      ap (λ t. (push d t).out_queue) written
          ∙ queue
          ∙ ap (λ o. d.out_queue ++ interrupted d.state ++ from_unescaped o ∷ [])
              (remove_escape-flat_map text),
      ap (λ t. (push d t).state) written ∙ state,
    )
