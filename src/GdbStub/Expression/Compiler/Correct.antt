-- ===== src/GdbStub/Expression/Compiler/Correct.antt =====
-- lib/gdb-stub/expression.cpp: `execute` on compiled expressions computes their values.
use simple_riscv_emulator.Common.{
  ℕ, ◌+◌, ◌^◌, ◌<◌, true, false, ◌==◌, Option, some, List, ◌∷◌, ◌++◌, get_elem?, u32, ◌≡◌, inl, inr,
  refl, ◌∙◌, arith, subst, Bool-cases,
}
use simple_riscv_emulator.GdbStub.Expression.{Machine}
use simple_riscv_emulator.GdbStub.Expression.Bytecode.{Bytecode, to_u8, if_goto, goto}
use simple_riscv_emulator.GdbStub.Expression.Step.{step, arithmetic}
use simple_riscv_emulator.GdbStub.Expression.Run.{run}
use simple_riscv_emulator.GdbStub.Expression.Tree.{
  Value, value, failure, no_meaning, bind, eval, Expr, const, register, word_at, unary_op,
  binary_op, division, conditional,
}
use simple_riscv_emulator.GdbStub.Expression.Compiler.{
  size, compile, length-compile, with_u16, binary_bytecode, division_bytecode,
}
use simple_riscv_emulator.GdbStub.Expression.Compiler.Reaches.{
  At, At-append, Reaches, after, Reaches-step, Reaches-after, Reaches-bind, step_at,
}
use simple_riscv_emulator.GdbStub.Expression.Compiler.Rounds.{
  at, const_step, register_step, word_step, unary_step, binary_result, division_result, goto_step,
  if_goto_step,
}

module _ {ℓ} {S : Type ℓ} (access_memory access_register : S → ℕ → S × Option ℕ)
    (code : List ℕ) where
  abbrev ready : ℕ → List ℕ → S → Machine S
  ready pc s env = at access_memory access_register code pc s env

  -- From `m`, the value is left on the stack `s` at `pc`.
  abbrev Leaves : Machine S → ℕ → List ℕ → Value S → Type ℓ
  Leaves m pc s v =
      Reaches access_memory access_register code m (after access_memory access_register code pc s v)

  abbrev value_of : Expr → S → Value S
  value_of e env = eval access_memory access_register e env

  -- The bytes of `e` from `pc` on leave its value on the stack, and go on behind them.
  abbrev pub Computes : ℕ → Expr → Type ℓ
  Computes pc e = (s : List ℕ) (env : S) → Leaves (ready pc s env) (pc + size e) s (value_of e env)

  moved :
      (m : Machine S) (pc pc' : ℕ) (s : List ℕ) (v : Value S)
      → pc ≡ pc'
      → Leaves m pc s v
      → Leaves m pc' s v
  moved m pc pc' s v e r = subst (λ p. Leaves m p s v) e r

  At-compile :
      (pc : ℕ) (e : Expr) (rest : List ℕ)
      → At code pc (compile pc e ++ rest)
      → At code pc (compile pc e) × At code (pc + size e) rest
  At-compile pc e rest a =
      let (first, second) = At-append code pc (compile pc e) rest a in
      (first, subst (λ n. At code (pc + n) rest) (length-compile pc e) second)

  -- One operand, and an operation behind it.
  one_operand :
      (pc : ℕ) (e : Expr) (s : List ℕ) (env : S) (f : S → ℕ → Value S)
      → Computes pc e
      → ((env' : S) (x : ℕ)
          → step access_memory access_register code (ready (pc + size e) (x ∷ s) env')
            ≡ after access_memory access_register code (pc + size e + 1) s (f env' x) 0)
      → Leaves (ready pc s env) (pc + (size e + 1)) s (bind (value_of e env) f)
  one_operand pc e s env f c h = moved _ (pc + size e + 1) _ s _ (omega arith) (
      Reaches-bind access_memory access_register code (ready pc s env) (pc + size e)
        (pc + size e + 1) s s (value_of e env) f (c s env)
        λ env' x.
          Reaches-after access_memory access_register code _ (pc + size e + 1) s (f env' x)
            (h env' x))

  -- Two operands, the second one first, and an operation behind them.
  two_operands :
      (pc : ℕ) (x y : Expr) (s : List ℕ) (env : S) (op : Bytecode) (f : S → ℕ → ℕ → Value S)
      → Computes pc y
      → Computes (pc + size y) x
      → get_elem? code (pc + size y + size x) ≡ some (to_u8 op)
      → ((env' : S) (b a : ℕ)
          → arithmetic access_memory access_register code
              (ready (pc + size y + size x) (a ∷ b ∷ s) env')
              op
            ≡ after access_memory access_register code (pc + size y + size x + 1) s (f env' b a) 0)
      → Leaves
          (ready pc s env)
          (pc + (size y + size x + 1))
          s
          (bind (value_of y env) λ env1 b. bind (value_of x env1) λ env2 a. f env2 b a)
  two_operands pc x y s env op f cy cx here h =
      let second = pc + size y in
      let last = second + size x in
      moved _ (last + 1) _ s _ (omega arith) (
        Reaches-bind access_memory access_register code (ready pc s env) second (last + 1) s s
          (value_of y env) _ (cy s env)
          λ env1 b.
            Reaches-bind access_memory access_register code (ready second (b ∷ s) env1) last
              (last + 1) (b ∷ s) s (value_of x env1) _ (cx (b ∷ s) env1)
              λ env2 a.
                Reaches-after access_memory access_register code (ready last (a ∷ b ∷ s) env2)
                  (last + 1) s (f env2 b a)
                  (step_at access_memory access_register code (ready last (a ∷ b ∷ s) env2) op here
                    ∙ h env2 b a))

  bind-value : (v : Value S) → bind v value ≡ v
  unfolding bind
  bind-value (value env a) = refl
  bind-value (failure env e) = refl
  bind-value no_meaning = refl

  -- The arm that is run when the condition is zero jumps over the other.
  first_arm :
      (pc target : ℕ) (f : Expr) (s : List ℕ) (env : S)
      → Computes pc f
      → At code (pc + size f) (with_u16 goto target)
      → target < 2 ^ 16
      → Leaves (ready pc s env) target s (value_of f env)
  unfolding run
  first_arm pc target f s env cf g l =
      subst (Leaves (ready pc s env) target s) (bind-value (value_of f env)) (
        Reaches-bind access_memory access_register code (ready pc s env) (pc + size f) target s s
          (value_of f env) value (cf s env)
          λ env' v.
            Reaches-after access_memory access_register code (ready (pc + size f) (v ∷ s) env')
              target s (value env' v)
              (goto_step access_memory access_register code (pc + size f) target (v ∷ s) env' g l))

  -- The condition's value is tested, and one arm gives the result.
  two_arms :
      (first arm target b : ℕ) (t f : Expr) (s : List ℕ) (env : S)
      → At code first (with_u16 if_goto arm)
      → arm < 2 ^ 16
      → Leaves (ready (first + 3) s env) target s (value_of f env)
      → Leaves (ready arm s env) target s (value_of t env)
      → Leaves
          (ready first (b ∷ s) env)
          target
          s
          (elim (b == 0) [ true ↦ value_of f env | false ↦ value_of t env ])
  two_arms first arm target b t f s env a l on_zero otherwise =
      let jump = if_goto_step access_memory access_register code first arm b s env a l in
      elim (Bool-cases (b == 0)) [
        | inl z ↦ rw z (
            Reaches-step access_memory access_register code _ (ready (first + 3) s env) _
              (jump ∙ rw z refl) on_zero)
        | inr nz ↦ rw nz (
            Reaches-step access_memory access_register code _ (ready arm s env) _
              (jump ∙ rw nz refl) otherwise)
      ]

  pub compile-Computes :
      (e : Expr) (pc : ℕ) → At code pc (compile pc e) → pc + size e < 2 ^ 16 → Computes pc e
  unfolding compile eval size
  compile-Computes (const n) pc a l s env =
      Reaches-after access_memory access_register code _ (pc + 5) s (value env (u32 n))
        (const_step access_memory access_register code pc n s env a)
  compile-Computes (register r) pc a l s env =
      Reaches-after access_memory access_register code _ (pc + 3) s _
        (register_step access_memory access_register code pc r s env a)
  compile-Computes (word_at e) pc a l s env =
      let (first, here) = At-compile pc e _ a in
      one_operand pc e s env _ (compile-Computes e pc first (omega arith))
        λ env' x. word_step access_memory access_register code (pc + size e) x s env' here.0
  compile-Computes (unary_op op e) pc a l s env =
      let (first, here) = At-compile pc e _ a in
      one_operand pc e s env _ (compile-Computes e pc first (omega arith))
        λ env' x. unary_step access_memory access_register code op (pc + size e) x s env' here.0
  compile-Computes (binary_op op x y) pc a l s env =
      let (second, rest) = At-compile pc y _ a in
      let (first, here) = At-compile (pc + size y) x _ rest in
      two_operands pc x y s env (binary_bytecode op) _ (compile-Computes y pc second (omega arith))
        (compile-Computes x (pc + size y) first (omega arith)) here.0
        λ env' b a'.
          binary_result access_memory access_register code op (pc + size y + size x) a' b s env'
  compile-Computes (division op x y) pc a l s env =
      let (second, rest) = At-compile pc y _ a in
      let (first, here) = At-compile (pc + size y) x _ rest in
      two_operands pc x y s env (division_bytecode op) _
        (compile-Computes y pc second (omega arith))
        (compile-Computes x (pc + size y) first (omega arith)) here.0
        λ env' b a'.
          division_result access_memory access_register code op (pc + size y + size x) a' b s env'
  compile-Computes (conditional c t f) pc a l s env =
      let first = pc + size c in
      let arm = first + 3 + size f + 3 in
      let target = arm + size t in
      let (condition, rest) = At-compile pc c _ a in
      let (test, rest') = At-append code first (with_u16 if_goto arm) _ rest in
      let (zero_arm, rest'') = At-compile (first + 3) f _ rest' in
      let (skip, other_arm) = At-append code (first + 3 + size f) (with_u16 goto target) _ rest'' in
      moved _ target _ s _ (omega arith) (
        Reaches-bind access_memory access_register code (ready pc s env) first target s s
          (value_of c env) _ (compile-Computes c pc condition (omega arith) s env)
          λ env' b.
            two_arms first arm target b t f s env' test (omega arith)
              (first_arm (first + 3) target f s env'
                (compile-Computes f (first + 3) zero_arm (omega arith)) skip (omega arith))
              (compile-Computes t arm other_arm (omega arith) s env'))
