-- ===== src/GdbStub/OrderedMap.antt =====
-- `std::map` as the stub fills it: `ranges::to<std::map>` of pairs, under any order of the keys.
use simple_riscv_emulator.Common.{Bool, true, false, List, [], ◌∷◌, if◌then◌else◌}
pub mod Lookup

module _ {ℓ κ} {K : Type ℓ} {V : Type κ} (less : K → K → Bool) where
  -- The pairs stand in the order of their keys; a key that is there keeps its value.
  unfoldable pub insert_absent : K → V → List (K × V) → List (K × V)
  insert_absent k v [] = (k, v) ∷ []
  insert_absent k v ((j, w) ∷ m) =
      let later = insert_absent k v m in
      if less k j then (k, v) ∷ (j, w) ∷ m else if less j k then (j, w) ∷ later else (j, w) ∷ m

  unfoldable pub to_map : List (K × V) → List (K × V) → List (K × V)
  unfolding insert_absent
  to_map m [] = m
  to_map m ((k, v) ∷ pairs) = to_map (insert_absent k v m) pairs
