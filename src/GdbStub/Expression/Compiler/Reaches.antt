-- ===== src/GdbStub/Expression/Compiler/Reaches.antt =====
-- lib/gdb-stub/expression.cpp: runs of the loop of `execute`, put together from rounds.
use simple_riscv_emulator.Common.{
  ℕ, zero, suc, ◌+◌, Option, some, List, [], ◌∷◌, ◌++◌, length, get_elem?, unexpected, Expected,
  ◌≡◌, refl, sym, ap, ◌∙◌, arith, subst,
}
use simple_riscv_emulator.GdbStub.Expression.{
  Machine, Progress, running, returned, undefined, ExecuteError, ExecuteResult, get_op_at_index,
  or_fail,
}
use simple_riscv_emulator.GdbStub.Expression.Bytecode.{Bytecode, to_u8, from_u8-to_u8}
use simple_riscv_emulator.GdbStub.Expression.Step.{step, arithmetic, switch}
use simple_riscv_emulator.GdbStub.Expression.Run.{run}
use simple_riscv_emulator.GdbStub.Expression.Tree.{Value, value, failure, no_meaning, bind}

-- The bytes stand in the sequence from `pc` on.
abbrev pub At : List ℕ → ℕ → List ℕ → Type 0
At code pc [] = Unit
At code pc (b ∷ bs) = (get_elem? code pc ≡ some b) × At code (pc + 1) bs

pub At-get :
    (code : List ℕ) (pc : ℕ) (bs : List ℕ) (i b : ℕ)
    → At code pc bs
    → get_elem? bs i ≡ some b
    → get_elem? code (pc + i) ≡ some b
At-get code pc [] i b a e = ground arith
At-get code pc (x ∷ bs) zero b a e =
    let here : pc + zero ≡ pc = omega arith in ap (get_elem? code) here ∙ a.0 ∙ e
At-get code pc (x ∷ bs) (suc i) b a e =
    let on : pc + suc i ≡ pc + 1 + i = omega arith in
    ap (get_elem? code) on ∙ At-get code (pc + 1) bs i b a.1 e

pub At-append :
    (code : List ℕ) (pc : ℕ) (xs ys : List ℕ)
    → At code pc (xs ++ ys)
    → At code pc xs × At code (pc + length xs) ys
At-append code pc [] ys a =
    let here : pc + 0 ≡ pc = omega arith in (tt, subst (λ p. At code p ys) (sym here) a)
At-append code pc (x ∷ xs) ys a =
    let (first, second) = At-append code (pc + 1) xs ys a.1 in
    let on : pc + 1 + length xs ≡ pc + suc (length xs) = omega arith in
    ((a.0, first), subst (λ p. At code p ys) on second)

At-cons : (code : List ℕ) (x pc : ℕ) (bs : List ℕ) → At code pc bs → At (x ∷ code) (pc + 1) bs
At-cons code x pc [] a = tt
At-cons code x pc (b ∷ bs) a =
    let on : pc + 1 ≡ suc pc = omega arith in
    (ap (get_elem? (x ∷ code)) on ∙ a.0, At-cons code x (pc + 1) bs a.1)

pub At-self : (code : List ℕ) → At code 0 code
At-self [] = tt
At-self (x ∷ code) = (refl, At-cons code x 0 code (At-self code))

module _ {ℓ} {S : Type ℓ} (access_memory access_register : S → ℕ → S × Option ℕ)
    (code : List ℕ) where
  abbrev pub exec : ℕ → Machine S → Progress S
  exec n m = run access_memory access_register code n m

  -- Some number of rounds leads from `m` to what `after` does with any further rounds.
  abbrev pub Reaches : Machine S → (ℕ → Progress S) → Type ℓ
  Reaches m after = (n : ℕ) × ((k : ℕ) → exec (n + k) m ≡ after k)

  -- What a value, left on the stack at `pc`, or the lack of one leads to.
  abbrev pub after : ℕ → List ℕ → Value S → ℕ → Progress S
  after pc s (value env v) k = exec k (record { pc = pc; stack = v ∷ s; env = env })
  after pc s (failure env e) k = returned env (unexpected e)
  after pc s no_meaning k = undefined

  run_running :
      (n : ℕ) (m m' : Machine S)
      → step access_memory access_register code m ≡ running m'
      → exec (suc n) m ≡ exec n m'
  unfolding run
  run_running n m m' e = rw (run, e) refl

  pub Reaches-step :
      (m m' : Machine S) (o : ℕ → Progress S)
      → step access_memory access_register code m ≡ running m'
      → Reaches m' o
      → Reaches m o
  Reaches-step m m' o e (n, r) = (
    suc n,
    λ k.
        let on : suc n + k ≡ suc (n + k) = omega arith in
        ap (λ j. exec j m) on ∙ run_running (n + k) m m' e ∙ r k,
  )

  pub Reaches_here : (m : Machine S) → Reaches m (λ k. exec k m)
  Reaches_here m = (0, λ k. let on : 0 + k ≡ k = omega arith in ap (λ j. exec j m) on)

  -- The same, when the round's result is that of a value.
  pub Reaches-after :
      (m : Machine S) (pc : ℕ) (s : List ℕ) (v : Value S)
      → step access_memory access_register code m ≡ after pc s v 0
      → Reaches m (after pc s v)
  unfolding run
  Reaches-after m pc s (value env v) e =
      Reaches-step m (record { pc = pc; stack = v ∷ s; env = env }) _ e (Reaches_here _)
  Reaches-after m pc s (failure env err) e =
      (1, λ k. let on : 1 + k ≡ suc k = omega arith in ap (λ j. exec j m) on ∙ rw (run, e) refl)
  Reaches-after m pc s no_meaning e =
      (1, λ k. let on : 1 + k ≡ suc k = omega arith in ap (λ j. exec j m) on ∙ rw (run, e) refl)

  pub Reaches_then :
      (m m' : Machine S) (o : ℕ → Progress S)
      → Reaches m (λ k. exec k m')
      → Reaches m' o
      → Reaches m o
  Reaches_then m m' o (n, r) (n', r') = (
    n + n',
    λ k.
        let on : n + n' + k ≡ n + (n' + k) = omega arith in
        ap (λ j. exec j m) on ∙ r (n' + k) ∙ r' k,
  )

  pub Reaches_end :
      (m : Machine S) (env : S) (r : Expected ExecuteResult ExecuteError)
      → step access_memory access_register code m ≡ returned env r
      → Reaches m (λ k. returned env r)
  unfolding run
  Reaches_end m env r e =
      (1, λ k. let on : 1 + k ≡ suc k = omega arith in ap (λ j. exec j m) on ∙ rw (run, e) refl)

  -- A value first, and then what is made of it.
  pub Reaches-bind :
      (m : Machine S) (pc pc' : ℕ) (s s' : List ℕ) (v : Value S) (f : S → ℕ → Value S)
      → Reaches m (after pc s v)
      → ((env : S) (a : ℕ)
          → Reaches (record { pc = pc; stack = a ∷ s; env = env }) (after pc' s' (f env a)))
      → Reaches m (after pc' s' (bind v f))
  unfolding bind
  Reaches-bind m pc pc' s s' (value env a) f r h =
      Reaches_then m (record { pc = pc; stack = a ∷ s; env = env }) _ r (h env a)
  Reaches-bind m pc pc' s s' (failure env e) f r h = r
  Reaches-bind m pc pc' s s' no_meaning f r h = r

  -- The round that finds the operation `op`.
  pub step_at :
      (m : Machine S) (op : Bytecode)
      → get_elem? code m.pc ≡ some (to_u8 op)
      → step access_memory access_register code m
        ≡ arithmetic access_memory access_register code m op
  unfolding step get_op_at_index or_fail switch
  step_at m op e = rw (e, from_u8-to_u8 op) refl
