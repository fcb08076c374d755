-- ===== src/GdbStub/Packet/Encoder/Runs.antt =====
-- lib/gdb-stub/packet.cpp: `Packet_encoder` against the protocol's reading of its output, in which a
-- `*` and a character n repeat the character before it n - 29 times.
use mathlib.Core.List.{append_assoc, append-nil, flat_map}
use simple_riscv_emulator.Common.{
  ℕ, zero, suc, ◌+◌, ◌-◌, ◌≤◌, ◌<◌, Bool, true, false, List, [], ◌∷◌, ◌++◌, ◌||◌, not, leb, ◌==◌,
  replicate, u8, ◌≡◌, ◌≢◌, ◌⊎◌, inl, inr, refl, sym, ap, ◌∙◌, arith, if◌then◌else◌, bit_xor,
  Bool-cases,
}
use simple_riscv_emulator.GdbStub.Packet.Encoder.{
  Encoder, run_text, push_repeat, is_escaped, escape_char, push, push_all,
}

-- The reader's side: `last` is the character before, `starred` tells that it was a `*`.
unfoldable pub expand : Bool → ℕ → List ℕ → List ℕ
expand starred last [] = []
expand true last (n ∷ rest) = replicate (n - 29) last ++ expand false last rest
expand false last (c ∷ rest) = elim (c == b'*') [
  | true ↦ expand true last rest
  | false ↦ c ∷ expand false c rest
]

-- What the encoder still appends for `text` when `n` further copies of `last` wait.
unfoldable pub emit : ℕ → ℕ → List ℕ → List ℕ
unfolding run_text escape_char
emit last n [] = run_text last n
emit last n (c ∷ text) = elim (c == 0) [
  | true ↦ emit last n text
  | false ↦ elim (not (c == last) || leb (126 - 29) n) [
    | true ↦ run_text last n ++ (escape_char c ++ emit c 0 text)
    | false ↦ emit last (u8 (n + 1)) text
  ]
]

-- The three things that `push` does with a character.
push-cases :
    (e : Encoder) (c : ℕ) (text : List ℕ)
    → (push e c ≡ e) × (emit e.last_char e.repeat (c ∷ text) ≡ emit e.last_char e.repeat text)
      ⊎ (push e c ≡ record {
        stream = (e.stream ++ run_text e.last_char e.repeat) ++ escape_char c;
        last_char = c;
        repeat = 0;
      })
        × (emit e.last_char e.repeat (c ∷ text)
            ≡ run_text e.last_char e.repeat ++ (escape_char c ++ emit c 0 text))
      ⊎ (push e c ≡ record e { repeat = u8 (e.repeat + 1) })
        × (emit e.last_char e.repeat (c ∷ text) ≡ emit e.last_char (u8 (e.repeat + 1)) text)
unfolding push emit push_repeat
push-cases e c text = elim (Bool-cases (c == 0)) [
  | inl z ↦ inl (rw z refl, rw (emit, z) refl)
  | inr nz ↦ elim (Bool-cases (not (c == e.last_char) || leb (126 - 29) e.repeat)) [
    | inl new ↦ inr (inl (rw (nz, new) refl, rw (emit, nz, new) refl))
    | inr old ↦ inr (inr (rw (nz, old) refl, rw (emit, nz, old) refl))
  ]
]

written :
    (e : Encoder) (c : ℕ) (text : List ℕ) {e' : Encoder}
    → push e c ≡ e'
    → (push_repeat (push_all e (c ∷ text))).stream ≡ (push_repeat (push_all e' text)).stream
unfolding push_all
written e c text p = ap (λ e''. (push_repeat (push_all e'' text)).stream) p

pub push_all-emit :
    (text : List ℕ) (e : Encoder)
    → (push_repeat (push_all e text)).stream ≡ e.stream ++ emit e.last_char e.repeat text
unfolding push_repeat push_all emit
push_all-emit [] e = refl
push_all-emit (c ∷ text) e = elim (push-cases e c text) [
  | inl (p, q) ↦ written e c text p ∙ push_all-emit text e ∙ ap (λ t. e.stream ++ t) (sym q)
  | inr (inl (p, q)) ↦
      written e c text p
      ∙ push_all-emit text _
      ∙ (simp append_assoc)
      ∙ ap (λ t. e.stream ++ t) (sym q)
  | inr (inr (p, q)) ↦ written e c text p ∙ push_all-emit text _ ∙ ap (λ t. e.stream ++ t) (sym q)
]

-- A text the encoder keeps: no character is zero, and none of those to be escaped follows itself.
abbrev pub IsEncodable : ℕ → List ℕ → Type 0
IsEncodable last [] = Unit
IsEncodable last (c ∷ text) = (c ≢ 0) × (is_escaped c ≡ true → c ≢ last) × IsEncodable c text

expand_plain :
    (c last : ℕ) (rest : List ℕ)
    → is_escaped c ≡ false
    → expand false last (c ∷ rest) ≡ c ∷ expand false c rest
unfolding expand
expand_plain c last rest h = ground arith

expand_plain_twice :
    (c last : ℕ) (rest : List ℕ)
    → is_escaped c ≡ false
    → expand false last (c ∷ c ∷ rest) ≡ c ∷ c ∷ expand false c rest
expand_plain_twice c last rest h =
    expand_plain c last (c ∷ rest) h ∙ ap (λ l. c ∷ l) (expand_plain c c rest h)

-- The ways to write a run, by its length.
pub run_text-cases :
    (c n : ℕ)
    → c ≢ 0
    → n ≤ 97
    → (n ≡ 0) × (run_text c n ≡ [])
      ⊎ (n ≡ 1) × (run_text c n ≡ c ∷ [])
      ⊎ (n ≡ 2) × (run_text c n ≡ c ∷ c ∷ [])
      ⊎ (n ≡ 6) × (run_text c n ≡ b'*' ∷ b'"' ∷ c ∷ [])
      ⊎ (n ≡ 7) × (run_text c n ≡ b'*' ∷ b'"' ∷ c ∷ c ∷ [])
      ⊎ (2 < n) × (n ≢ 6) × (n ≢ 7) × (run_text c n ≡ b'*' ∷ (n + 29) ∷ [])
unfolding run_text
run_text-cases c n nz le = ground arith

cancel : (n : ℕ) → n + 29 - 29 ≡ n
cancel n = omega arith

-- Every way to write a run stands for the run.
expand-run_text :
    (c n : ℕ) (rest : List ℕ)
    → c ≢ 0
    → is_escaped c ≡ false
    → n ≤ 97
    → expand false c (run_text c n ++ rest) ≡ replicate n c ++ expand false c rest
unfolding expand
expand-run_text c n rest nz plain le = elim (run_text-cases c n nz le) [
  | inl (e, t) ↦ rw (t, e) refl
  | inr (inl (e, t)) ↦ rw (t, e) (expand_plain c c rest plain)
  | inr (inr (inl (e, t))) ↦ rw (t, e) (expand_plain_twice c c rest plain)
  | inr (inr (inr (inl (e, t)))) ↦
      rw (t, e) (ap (λ l. replicate 5 c ++ l) (expand_plain c c rest plain))
  | inr (inr (inr (inr (inl (e, t))))) ↦
      rw (t, e) (ap (λ l. replicate 5 c ++ l) (expand_plain_twice c c rest plain))
  | inr (inr (inr (inr (inr (lo, a, b, t))))) ↦ rw (t, cancel n) refl
]

pub is_escaped-cases :
    (c : ℕ) → (c ≡ b'*') ⊎ (c ≡ b'$') ⊎ (c ≡ b'}') ⊎ (c ≡ b'#') ⊎ (is_escaped c ≡ false)
is_escaped-cases c = ground arith

expand-escape_char :
    (c t : ℕ) (rest : List ℕ)
    → expand false t (escape_char c ++ rest)
      ≡ escape_char c ++ expand false (if is_escaped c then bit_xor c 0x20 else c) rest
unfolding expand escape_char
expand-escape_char c t rest = elim (is_escaped-cases c) [
  | inl e ↦ rw e refl
  | inr (inl e) ↦ rw e refl
  | inr (inr (inl e)) ↦ rw e refl
  | inr (inr (inr (inl e))) ↦ rw e refl
  | inr (inr (inr (inr plain))) ↦ rw plain (expand_plain c t rest plain)
]

-- What is known of the characters that wait: none does after one that is escaped.
abbrev pub IsWaiting : ℕ → ℕ → ℕ → Type 0
IsWaiting last n t =
    (n ≡ 0) × ((is_escaped last ≡ true) ⊎ (last ≡ 0))
    ⊎ (last ≢ 0) × (is_escaped last ≡ false) × (t ≡ last)

expand_waiting :
    (last n t : ℕ) (rest : List ℕ)
    → IsWaiting last n t
    → n ≤ 97
    → expand false t (run_text last n ++ rest) ≡ replicate n last ++ expand false t rest
unfolding run_text
expand_waiting last n t rest (inl (z, _)) le = rw z refl
expand_waiting last n t rest (inr (nz, plain, same)) le =
    rw same (expand-run_text last n rest nz plain le)

pub after_escape-IsWaiting :
    (c : ℕ) → c ≢ 0 → IsWaiting c 0 (if is_escaped c then bit_xor c 0x20 else c)
after_escape-IsWaiting c nz = ground arith

replicate-suc {ℓ} :
    {A : Type ℓ} (n : ℕ) (a : A) (rest : List A)
    → replicate n a ++ a ∷ rest ≡ replicate (suc n) a ++ rest
replicate-suc zero a rest = refl
replicate-suc (suc n) a rest = ap (λ l. a ∷ l) (replicate-suc n a rest)

pub emit_new :
    (last n c : ℕ) (text : List ℕ)
    → c ≢ 0
    → (not (c == last) || leb (126 - 29) n) ≡ true
    → emit last n (c ∷ text) ≡ run_text last n ++ (escape_char c ++ emit c 0 text)
unfolding emit
emit_new last n c text nz new = let ne : (c == 0) ≡ false = ground arith in rw (emit, ne, new) refl

pub emit_old :
    (last n c : ℕ) (text : List ℕ)
    → c ≢ 0
    → (not (c == last) || leb (126 - 29) n) ≡ false
    → n ≤ 97
    → emit last n (c ∷ text) ≡ emit last (n + 1) text
unfolding emit
emit_old last n c text nz old le =
    let ne : (c == 0) ≡ false = ground arith in
    let small : u8 (n + 1) ≡ n + 1 = ground arith in
    rw (emit, ne, old) (ap (λ m. emit last m text) small)

replicate-plain :
    (n last c : ℕ) (rest : List ℕ)
    → c ≡ last
    → is_escaped c ≡ false
    → replicate (n + 1) last ++ rest ≡ replicate n last ++ (escape_char c ++ rest)
unfolding escape_char
replicate-plain n last c rest same plain =
    let one : n + 1 ≡ suc n = omega arith in rw (plain, one, same) (sym (replicate-suc n last rest))

-- What waits and what is still to come stand for the run and the escaped text.
pub expand-emit :
    (text : List ℕ) (last n t : ℕ)
    → IsWaiting last n t
    → n ≤ 97
    → IsEncodable last text
    → expand false t (emit last n text) ≡ replicate n last ++ flat_map escape_char text
unfolding emit expand flat_map
expand-emit [] last n t w le h =
    ap (expand false t) (sym (append-nil (run_text last n))) ∙ expand_waiting last n t [] w le
expand-emit (c ∷ text) last n t w le (nz, h, hs) =
    elim (Bool-cases (not (c == last) || leb (126 - 29) n)) [
      | inl new ↦
          ap (expand false t) (emit_new last n c text nz new)
          ∙ expand_waiting last n t (escape_char c ++ emit c 0 text) w le
          ∙ ap (λ l. replicate n last ++ l)
              (expand-escape_char c t (emit c 0 text)
                ∙ ap (λ l. escape_char c ++ l)
                    (expand-emit text c 0 _ (after_escape-IsWaiting c nz) (omega arith) hs))
      | inr old ↦
          let same : c ≡ last = ground arith in
          let plain : is_escaped c ≡ false = ground arith in
          ap (expand false t) (emit_old last n c text nz old le)
          ∙ expand-emit text last (n + 1) t (ground arith) (ground arith) (rw (← same) hs)
          ∙ replicate-plain n last c (flat_map escape_char text) same plain
    ]
