-- ===== src/GdbStub/Command/Features.antt =====
-- lib/gdb-stub/command.cpp: `parse` on a `qSupported` packet as a host writes it.
use simple_riscv_emulator.Common.{
  ℕ, true, false, none, some, List, [], ◌∷◌, ◌++◌, map, ◌==◌, ◌≡◌, ◌≢◌, refl, ap, ◌∙◌, arith,
}
use simple_riscv_emulator.GdbStub.{All, All-append, text_eq, codes, split_parts, put_head}
use simple_riscv_emulator.GdbStub.OrderedMap.{to_map}
use simple_riscv_emulator.GdbStub.OrderedMap.Lookup.{IsOrder, first, first-to_map}
use simple_riscv_emulator.GdbStub.Command.{
  HostFeatureStatus, with_value, supported, unsupported, unknown, parsed, query_supported,
}
use simple_riscv_emulator.GdbStub.Command.Hex.{is_empty}
use simple_riscv_emulator.GdbStub.Command.Parse.{parse}
use simple_riscv_emulator.GdbStub.Command.Supported.{
  is_separator, last_separator, status_of, features_of, text_less, query_of, parse_q_supported,
}

-- A feature as a host announces it: its name, its separator and what stands behind that.
pub data Feature : Type 0 where
  has : List ℕ → Feature
  lacks : List ℕ → Feature
  may_have : List ℕ → Feature
  sets : List ℕ → List ℕ → Feature

unfoldable pub feature_text : Feature → List ℕ
feature_text (has name) = name ++ b'+' ∷ []
feature_text (lacks name) = name ++ b'-' ∷ []
feature_text (may_have name) = name ++ b'?' ∷ []
feature_text (sets name value) = name ++ b'=' ∷ value

unfoldable pub features_text : Feature → List Feature → List ℕ
unfolding feature_text
features_text f [] = feature_text f
features_text f (g ∷ rest) = feature_text f ++ b';' ∷ features_text g rest

unfoldable pub entry : Feature → List ℕ × HostFeatureStatus
entry (has name) = (name, record { property = supported; value = none })
entry (lacks name) = (name, record { property = unsupported; value = none })
entry (may_have name) = (name, record { property = unknown; value = none })
entry (sets name value) = (name, record { property = with_value; value = some value })

abbrev pub IsInner : ℕ → Type 0
IsInner c = c ≢ b';'

abbrev pub IsPlain : ℕ → Type 0
IsPlain c = is_separator c ≡ false

-- A name is free of `;`, and a value of `;` and of separators.
unfoldable pub IsAnnounced : Feature → Type 0
IsAnnounced (has name) = All IsInner name
IsAnnounced (lacks name) = All IsInner name
IsAnnounced (may_have name) = All IsInner name
IsAnnounced (sets name value) = All IsInner name × All IsInner value × All IsPlain value

last_separator-IsPlain : (value : List ℕ) → All IsPlain value → last_separator value ≡ none
unfolding last_separator
last_separator-IsPlain [] h = refl
last_separator-IsPlain (c ∷ value) (h, hs) = rw (last_separator-IsPlain value hs, h) refl

last_separator-append :
    (name value : List ℕ) (sep : ℕ)
    → is_separator sep ≡ true
    → All IsPlain value
    → last_separator (name ++ sep ∷ value) ≡ some (name, sep, value)
unfolding last_separator
last_separator-append [] value sep e h = rw (last_separator-IsPlain value h, e) refl
last_separator-append (c ∷ name) value sep e h = rw (last_separator-append name value sep e h) refl

split_parts-IsInner : (part : List ℕ) → All IsInner part → split_parts b';' part ≡ part ∷ []
unfolding split_parts
split_parts-IsInner [] h = refl
split_parts-IsInner (c ∷ part) (h, hs) =
    let other : (c == b';') ≡ false = ground arith in
    rw other (ap (put_head c) (split_parts-IsInner part hs))

split_parts-append :
    (part rest : List ℕ)
    → All IsInner part
    → split_parts b';' (part ++ b';' ∷ rest) ≡ part ∷ split_parts b';' rest
unfolding split_parts
split_parts-append [] rest h = refl
split_parts-append (c ∷ part) rest (h, hs) =
    let other : (c == b';') ≡ false = ground arith in
    rw other (ap (put_head c) (split_parts-append part rest hs))

feature_text-IsInner : (f : Feature) → IsAnnounced f → All IsInner (feature_text f)
unfolding feature_text IsAnnounced
feature_text-IsInner (has name) h = All-append IsInner name (b'+' ∷ []) h (omega arith, tt)
feature_text-IsInner (lacks name) h = All-append IsInner name (b'-' ∷ []) h (omega arith, tt)
feature_text-IsInner (may_have name) h = All-append IsInner name (b'?' ∷ []) h (omega arith, tt)
feature_text-IsInner (sets name value) (h, k, p) =
    All-append IsInner name (b'=' ∷ value) h (omega arith, k)

features_of-feature_text :
    (f : Feature) (parts : List (List ℕ)) (later : List (List ℕ × HostFeatureStatus))
    → IsAnnounced f
    → features_of parts ≡ some later
    → features_of (feature_text f ∷ parts) ≡ some (entry f ∷ later)
unfolding features_of feature_text entry status_of IsAnnounced
features_of-feature_text (has name) parts later h e =
    rw (features_of, last_separator-append name [] b'+' refl tt, e) refl
features_of-feature_text (lacks name) parts later h e =
    rw (features_of, last_separator-append name [] b'-' refl tt, e) refl
features_of-feature_text (may_have name) parts later h e =
    rw (features_of, last_separator-append name [] b'?' refl tt, e) refl
features_of-feature_text (sets name value) parts later (h, k, p) e =
    rw (features_of, last_separator-append name value b'=' refl p, e) refl

features_of-features_text :
    (f : Feature) (rest : List Feature)
    → All IsAnnounced (f ∷ rest)
    → features_of (split_parts b';' (features_text f rest)) ≡ some (map entry (f ∷ rest))
unfolding features_text features_of
features_of-features_text f [] (h, hs) =
    rw (split_parts-IsInner (feature_text f) (feature_text-IsInner f h))
      (features_of-feature_text f [] [] h refl)
features_of-features_text f (g ∷ rest) (h, hs) =
    rw (split_parts-append (feature_text f) (features_text g rest) (feature_text-IsInner f h)) (
      features_of-feature_text f (split_parts b';' (features_text g rest)) (map entry (g ∷ rest)) h
        (features_of-features_text g rest hs))

is_empty-append : (s t : List ℕ) (c : ℕ) → is_empty (s ++ c ∷ t) ≡ false
is_empty-append [] t c = refl
is_empty-append (d ∷ s) t c = refl

feature_text-is_empty : (f : Feature) → is_empty (feature_text f) ≡ false
unfolding feature_text
feature_text-is_empty (has name) = is_empty-append name [] b'+'
feature_text-is_empty (lacks name) = is_empty-append name [] b'-'
feature_text-is_empty (may_have name) = is_empty-append name [] b'?'
feature_text-is_empty (sets name value) = is_empty-append name value b'='

features_text-is_empty :
    (f : Feature) (rest : List Feature) → is_empty (features_text f rest) ≡ false
unfolding features_text
features_text-is_empty f [] = feature_text-is_empty f
features_text-is_empty f (g ∷ rest) = is_empty-append (feature_text f) (features_text g rest) b';'

text_less_irrefl : (a : List ℕ) → text_less a a ≡ false
unfolding text_less
text_less_irrefl [] = refl
text_less_irrefl (c ∷ a) = ground (arith, text_less_irrefl a)

text_less_trans :
    (a b c : List ℕ) → text_less a b ≡ true → text_less b c ≡ true → text_less a c ≡ true
unfolding text_less
text_less_trans a b [] h k = absurd (ground (arith, k))
text_less_trans a [] (z ∷ c) h k = absurd (ground (arith, h))
text_less_trans [] (y ∷ b) (z ∷ c) h k = refl
text_less_trans (x ∷ a) (y ∷ b) (z ∷ c) h k = ground (arith, text_less_trans a b c)

text_less_connected : (a b : List ℕ) → text_less a b ≡ false → text_less b a ≡ false → a ≡ b
unfolding text_less
text_less_connected [] [] h k = refl
text_less_connected [] (y ∷ b) h k = absurd (ground (arith, h))
text_less_connected (x ∷ a) [] h k = absurd (ground (arith, k))
text_less_connected (x ∷ a) (y ∷ b) h k = ground (arith, text_less_connected a b)

text_eq_refl : (a : List ℕ) → text_eq a a ≡ true
text_eq_refl [] = refl
text_eq_refl (x ∷ a) = ground (arith, text_eq_refl a)

text_eq_sound : (a b : List ℕ) → text_eq a b ≡ true → a ≡ b
text_eq_sound [] [] h = refl
text_eq_sound [] (y ∷ b) h = absurd (ground (arith, h))
text_eq_sound (x ∷ a) [] h = absurd (ground (arith, h))
text_eq_sound (x ∷ a) (y ∷ b) h = ground (arith, text_eq_sound a b)

text_less-IsOrder : IsOrder text_less text_eq
text_less-IsOrder = record {
  irreflexive = text_less_irrefl;
  transitive = text_less_trans;
  connected = text_less_connected;
  same_refl = text_eq_refl;
  same_sound = text_eq_sound;
}

module _ (garbage : ℕ) where
  parse-supported :
      (text : List ℕ)
      → is_empty text ≡ false
      → parse garbage (codes "qSupported:" ++ text) ≡ query_of (features_of (split_parts b';' text))
  unfolding parse parse_q_supported
  parse-supported [] h = absurd (ground arith)
  parse-supported (c ∷ text) h = refl

  -- The features that a host announces in one `qSupported` packet are read into a map that holds
  -- under each name the status of the first of them with that name, and nothing under any other; a
  -- name may contain separators, a value may not.
  pub parse-features_text :
      (f : Feature) (rest : List Feature)
      → All IsAnnounced (f ∷ rest)
      → (m : List (List ℕ × HostFeatureStatus)) × (parse garbage
            (codes "qSupported:" ++ features_text f rest)
          ≡ parsed (query_supported m))
        × ((name : List ℕ) → first text_eq name m ≡ first text_eq name (map entry (f ∷ rest)))
  unfolding query_of
  parse-features_text f rest h = (
    to_map text_less [] (map entry (f ∷ rest)),
    parse-supported (features_text f rest) (features_text-is_empty f rest)
        ∙ ap query_of (features_of-features_text f rest h),
    λ name. first-to_map text_less text_eq text_less-IsOrder name (map entry (f ∷ rest)),
  )
