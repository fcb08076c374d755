-- ===== src/GdbStub/Expression/Run/Forward.antt =====
-- lib/gdb-stub/expression.cpp: expressions whose jumps lead forward end.
use simple_riscv_emulator.Common.{
  ℕ, zero, suc, ◌+◌, ◌≤◌, true, Option, none, List, [], ◌∷◌, length, get_elem?, ◌≡◌, refl, arith,
  unexpected,
}
use simple_riscv_emulator.GdbStub.Expression.{
  Machine, Progress, running, returned, undefined, bytecode_out_of_bound, or_fail, get_op_at_index,
}
use simple_riscv_emulator.GdbStub.Expression.Step.{step}
use simple_riscv_emulator.GdbStub.Expression.Run.{run, execute}
use simple_riscv_emulator.GdbStub.Expression.Run.Jumps.{is_forward, is_start, is_start_from_skip}
use simple_riscv_emulator.GdbStub.Expression.Run.Advance.{IsLater, At, step-IsLater}
use simple_riscv_emulator.GdbStub.Expression.Run.Leads.{Leads}

-- The loop was left before the rounds were used up.
abbrev pub HasEnded {ℓ} : {S : Type ℓ} → Progress S → Type 0
HasEnded (running m) = ⊥
HasEnded (returned env r) = Unit
HasEnded undefined = Unit

get_elem?-past {ℓ} : {A : Type ℓ} (l : List A) (i : ℕ) → length l ≤ i → get_elem? l i ≡ none
get_elem?-past [] i h = refl
get_elem?-past (x ∷ l) zero h = ground arith
get_elem?-past (x ∷ l) (suc i) h = get_elem?-past l i (omega arith)

module _ {ℓ} {S : Type ℓ} (access_memory access_register : S → ℕ → S × Option ℕ)
    (code : List ℕ) where
  -- Behind its last byte an expression fails.
  step_past :
      (m : Machine S)
      → length code ≤ m.pc
      → step access_memory access_register code m
        ≡ returned m.env (unexpected bytecode_out_of_bound)
  unfolding step get_op_at_index or_fail
  step_past m h = rw (get_elem?-past code m.pc h) refl

  after_step-HasEnded :
      (n : ℕ) (m : Machine S) (p : Progress S)
      → is_forward code ≡ true
      → step access_memory access_register code m ≡ p
      → Leads
          (At access_memory access_register code (IsLater access_memory access_register code m.pc))
          p
      → ((m' : Machine S)
          → IsLater access_memory access_register code m.pc m'.pc
          → HasEnded (run access_memory access_register code n m'))
      → HasEnded (run access_memory access_register code (suc n) m)
  unfolding run
  after_step-HasEnded n m (running m') f e h k = rw (HasEnded, run, e) (k m' h)
  after_step-HasEnded n m (returned env r) f e h k = rw (HasEnded, run, e) tt
  after_step-HasEnded n m undefined f e h k = rw (HasEnded, run, e) tt

  run-HasEnded :
      (n : ℕ) (m : Machine S)
      → is_forward code ≡ true
      → is_start code m.pc ≡ true
      → length code ≤ m.pc + n
      → HasEnded (run access_memory access_register code (suc n) m)
  unfolding run
  run-HasEnded zero m f s h = rw (HasEnded, run, step_past m (omega arith)) tt
  run-HasEnded (suc n) m f s h =
      after_step-HasEnded (suc n) m _ f refl (step-IsLater access_memory access_register code m f s)
        λ m' l. run-HasEnded n m' f l.1 (omega (arith, l.0))

  first_start : is_start code 0 ≡ true
  unfolding is_start
  first_start = is_start_from_skip 0 code

  -- An expression in which every jump leads to the start of a later operation, or behind the last
  -- byte, leaves the loop: as many rounds as it has bytes, and one more, are enough from any state
  -- of the caller, whatever memory and registers hold.
  pub execute-HasEnded :
      (env : S)
      → is_forward code ≡ true
      → HasEnded (execute access_memory access_register code (suc (length code)) env)
  unfolding execute
  execute-HasEnded env f =
      run-HasEnded (length code) (record { pc = 0; stack = []; env = env }) f first_start
        (omega arith)
