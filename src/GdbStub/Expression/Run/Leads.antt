-- ===== src/GdbStub/Expression/Run/Leads.antt =====
-- lib/gdb-stub/expression.cpp: what holds in the next round, if there is one, through the macros of
-- `execute` and the helpers of its cases.
use simple_riscv_emulator.Common.{
  ℕ, ◌+◌, ◌==◌, if◌then◌else◌, Bool, true, false, Option, some, none, List, [], ◌∷◌, get_elem?, ◌≡◌,
  refl, ap, ◌∙◌,
}
use simple_riscv_emulator.GdbStub.Expression.{
  Machine, Progress, running, returned, undefined, ExecuteError, pop, get_op_at_index, from_access,
  or_fail,
}
use simple_riscv_emulator.GdbStub.Expression.Step.{
  next, next_if_defined, unary, binary, divide, finish,
}

module _ {ℓ κ} {S : Type ℓ} (P : Machine S → Type κ) where
  abbrev pub Leads : Progress S → Type κ
  Leads (running m) = P m
  Leads (returned env r) = Unit
  Leads undefined = Unit

  pub pop-Leads :
      (env : S) (stack : List ℕ) (k : ℕ → List ℕ → Progress S)
      → ((a : ℕ) (s : List ℕ) → stack ≡ a ∷ s → Leads (k a s))
      → Leads (pop env stack k)
  unfolding pop
  pop-Leads env [] k h = tt
  pop-Leads env (a ∷ s) k h = h a s refl

  pub or_fail-Leads {μ} :
      {A : Type μ} (env : S) (e : ExecuteError) (o : Option A) (k : A → Progress S)
      → ((a : A) → o ≡ some a → Leads (k a))
      → Leads (or_fail env e o k)
  unfolding or_fail
  or_fail-Leads env e none k h = tt
  or_fail-Leads env e (some a) k h = h a refl

  pub from_access-Leads :
      (e : ExecuteError) (o : S × Option ℕ) (k : S → ℕ → Progress S)
      → ((env : S) (a : ℕ) → o ≡ (env, some a) → Leads (k env a))
      → Leads (from_access e o k)
  unfolding from_access
  from_access-Leads e (env, none) k h = tt
  from_access-Leads e (env, some a) k h = h env a refl

  pub if_Leads :
      (b : Bool) (p q : Progress S)
      → (b ≡ true → Leads p)
      → (b ≡ false → Leads q)
      → Leads (if b then p else q)
  if_Leads true p q h k = h refl
  if_Leads false p q h k = k refl

  pub next_if_defined-Leads :
      (m : Machine S) (n : ℕ) (s : List ℕ) (o : Option ℕ)
      → ((a : ℕ) → o ≡ some a → P (record m { pc = m.pc + n; stack = a ∷ s }))
      → Leads (next_if_defined m n s o)
  unfolding next_if_defined next
  next_if_defined-Leads m n s none h = tt
  next_if_defined-Leads m n s (some a) h = h a refl

  pub unary-Leads :
      (m : Machine S) (f : ℕ → ℕ)
      → ((a : ℕ) (s : List ℕ) → m.stack ≡ a ∷ s → P (record m { pc = m.pc + 1; stack = f a ∷ s }))
      → Leads (unary m f)
  unfolding unary next
  unary-Leads m f h = pop-Leads m.env m.stack _ h

  pub binary-Leads :
      (m : Machine S) (f : ℕ → ℕ → ℕ)
      → ((b a : ℕ) (s : List ℕ)
          → m.stack ≡ b ∷ a ∷ s
          → P (record m { pc = m.pc + 1; stack = f a b ∷ s }))
      → Leads (binary m f)
  unfolding binary next
  binary-Leads m f h =
      pop-Leads m.env m.stack _
        λ b s e. pop-Leads m.env s _ λ a s' e'. h b a s' (e ∙ ap (λ l. b ∷ l) e')

  pub divide-Leads :
      (m : Machine S) (f : ℕ → ℕ → Option ℕ)
      → ((b a q : ℕ) (s : List ℕ)
          → m.stack ≡ b ∷ a ∷ s
          → f b a ≡ some q
          → P (record m { pc = m.pc + 1; stack = q ∷ s }))
      → Leads (divide m f)
  unfolding divide
  divide-Leads m f h = pop-Leads m.env m.stack _ λ b s e. pop-Leads m.env s _ λ a s' e'.
      if_Leads (b == 0) _ _ (λ _. tt)
        λ _. next_if_defined-Leads m 1 s' (f b a) λ q d. h b a q s' (e ∙ ap (λ l. b ∷ l) e') d

  pub finish-Leads : (env : S) (top : ℕ) (s : List ℕ) → Leads (finish env top s)
  unfolding finish
  finish-Leads env top [] = tt
  finish-Leads env top (x ∷ s) = tt

  pub get_op_at_index-Leads :
      (env : S) (code : List ℕ) (i : ℕ) (k : ℕ → Progress S)
      → ((a : ℕ) → get_elem? code i ≡ some a → Leads (k a))
      → Leads (get_op_at_index env code i k)
  unfolding get_op_at_index
  get_op_at_index-Leads env code i k h = or_fail-Leads env _ (get_elem? code i) k h
