-- ===== src/Core/Outcome.antt =====
-- What a module that returns `std::expected<A, Trap>` and may throw `std::logic_error` does: it
-- returns a value or a trap, or it throws.
use simple_riscv_emulator.Common.{◌≡◌, refl, ◌⊎◌, inl, inr}
use simple_riscv_emulator.Core.Trap.{Trap}

pub data Outcome {ℓ} (A : Type ℓ) : Type ℓ where
  returns : A → Outcome A
  traps : Trap → Outcome A
  throws : Outcome A

pub Outcome-cases {ℓ} :
    {A : Type ℓ} (o : Outcome A)
    → ((a : A) × (o ≡ returns a)) ⊎ ((t : Trap) × (o ≡ traps t)) ⊎ (o ≡ throws)
Outcome-cases (returns a) = inl (a, refl)
Outcome-cases (traps t) = inr (inl (t, refl))
Outcome-cases throws = inr (inr refl)
