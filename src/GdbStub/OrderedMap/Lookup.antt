-- ===== src/GdbStub/OrderedMap/Lookup.antt =====
-- What a map made of pairs holds, under a strict order that tells every two keys apart.
use mathlib.Core.List.{append_assoc, append-nil}
use simple_riscv_emulator.Common.{
  Bool, true, false, Option, some, none, List, [], ◌∷◌, ◌++◌, if◌then◌else◌, ◌≡◌, refl, sym, ap,
  ◌∙◌, arith,
}
use simple_riscv_emulator.GdbStub.{All}
use simple_riscv_emulator.GdbStub.OrderedMap.{insert_absent, to_map}

-- A strict order, and the test for equality that it agrees with.
pub record IsOrder {ℓ} {K : Type ℓ} (less same : K → K → Bool) : Type ℓ where
  pub irreflexive : (a : K) → less a a ≡ false
  pub transitive : (a b c : K) → less a b ≡ true → less b c ≡ true → less a c ≡ true
  pub connected : (a b : K) → less a b ≡ false → less b a ≡ false → a ≡ b
  pub same_refl : (a : K) → same a a ≡ true
  pub same_sound : (a b : K) → same a b ≡ true → a ≡ b

-- The value of the first pair that has the key.
unfoldable pub first {ℓ κ} :
    {K : Type ℓ} {V : Type κ} → (K → K → Bool) → K → List (K × V) → Option V
first same key [] = none
first same key ((k, v) ∷ m) = if same key k then some v else first same key m

module _ {ℓ κ} {K : Type ℓ} {V : Type κ} (less same : K → K → Bool) (o : IsOrder less same) where
  abbrev Above : K → K × V → Type 0
  Above k p = less k p.0 ≡ true

  abbrev IsSorted : List (K × V) → Type 0
  IsSorted [] = Unit
  IsSorted ((k, v) ∷ m) = All (Above k) m × IsSorted m

  Above-trans : (k j : K) (m : List (K × V)) → less k j ≡ true → All (Above j) m → All (Above k) m
  Above-trans k j [] h hs = tt
  Above-trans k j ((i, v) ∷ m) h (above, hs) = (o.transitive k j i h above, Above-trans k j m h hs)

  insert_absent-Above :
      (k j : K) (v : V) (m : List (K × V))
      → less j k ≡ true
      → All (Above j) m
      → All (Above j) (insert_absent less k v m)
  unfolding insert_absent
  insert_absent-Above k j v [] h hs = (h, tt)
  insert_absent-Above k j v ((i, w) ∷ m) h hs = ground (arith, hs, insert_absent-Above k j v m h)

  insert_absent-IsSorted :
      (k : K) (v : V) (m : List (K × V)) → IsSorted m → IsSorted (insert_absent less k v m)
  unfolding insert_absent
  insert_absent-IsSorted k v [] s = (tt, tt)
  insert_absent-IsSorted k v ((j, w) ∷ m) s = ground (
    arith,
    s,
    Above-trans k j m,
    insert_absent-Above k j w m,
    insert_absent-IsSorted k v m,
    insert_absent-Above k j v m,
  )

  first-Above : (k : K) (m : List (K × V)) → All (Above k) m → first same k m ≡ none
  unfolding first
  first-Above k [] h = refl
  first-Above k ((j, w) ∷ m) (h, hs) =
      ground (arith, h, first-Above k m hs, o.irreflexive k, o.same_sound k j)

  abbrev or_else : Option V → Option V → Option V
  or_else none y = y
  or_else (some x) y = some x

  first-append_all :
      (key : K) (m pairs : List (K × V))
      → first same key (m ++ pairs) ≡ or_else (first same key m) (first same key pairs)
  unfolding first
  first-append_all key [] pairs = refl
  first-append_all key ((j, w) ∷ m) pairs = ground (arith, first-append_all key m pairs)

  first-cong :
      (key : K) (pairs m m' : List (K × V))
      → first same key m ≡ first same key m'
      → first same key (m ++ pairs) ≡ first same key (m' ++ pairs)
  first-cong key pairs m m' e =
      first-append_all key m pairs
      ∙ ap (λ x. or_else x (first same key pairs)) e
      ∙ sym (first-append_all key m' pairs)

  first-insert_absent :
      (key k : K) (v : V) (m : List (K × V))
      → IsSorted m
      → first same key (insert_absent less k v m) ≡ first same key (m ++ (k, v) ∷ [])
  unfolding first insert_absent
  first-insert_absent key k v [] s = refl
  first-insert_absent key k v ((j, w) ∷ m) (above, s) = ground (
    arith,
    first-insert_absent key k v m s,
    first-append_all key m ((k, v) ∷ []),
    first-Above k m,
    Above-trans k j m,
    above,
    o.irreflexive k,
    o.connected k j,
    o.same_refl k,
    o.same_sound key k,
    o.same_sound key j,
  )

  first-to_map_from :
      (key : K) (pairs m : List (K × V))
      → IsSorted m
      → first same key (to_map less m pairs) ≡ first same key (m ++ pairs)
  unfolding to_map
  first-to_map_from key [] m s = ap (first same key) (sym (append-nil m))
  first-to_map_from key ((k, v) ∷ pairs) m s =
      first-to_map_from key pairs (insert_absent less k v m) (insert_absent-IsSorted k v m s)
      ∙ first-cong key pairs (insert_absent less k v m) (m ++ (k, v) ∷ [])
          (first-insert_absent key k v m s)
      ∙ ap (first same key) (append_assoc m ((k, v) ∷ []) pairs)

  -- A map made of pairs holds for each key the value of the first pair that has it.
  pub first-to_map :
      (key : K) (pairs : List (K × V))
      → first same key (to_map less [] pairs) ≡ first same key pairs
  first-to_map key pairs = first-to_map_from key pairs [] tt
