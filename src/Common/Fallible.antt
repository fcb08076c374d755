-- ===== src/Common/Fallible.antt =====
-- `std::expected<A, E>`, its value under `ok`.
use mathlib.Core.Path.{◌≡◌, refl}
use mathlib.Core.Logic.{◌⊎◌, inl, inr}

pub data Expected {ℓ κ} (A : Type ℓ) (E : Type κ) : Type (ℓ ⊔ κ) where
  ok : A → Expected A E
  unexpected : E → Expected A E

pub Expected-cases {ℓ ℓ'} :
    {A : Type ℓ} {E : Type ℓ'}
    → (x : Expected A E) → ((a : A) × (x ≡ ok a)) ⊎ ((e : E) × (x ≡ unexpected e))
Expected-cases (ok a) = inl (a, refl)
Expected-cases (unexpected e) = inr (e, refl)
