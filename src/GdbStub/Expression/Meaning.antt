-- ===== src/GdbStub/Expression/Meaning.antt =====
-- lib/gdb-stub/expression.cpp: what an expression means by itself, and `execute` on its program.
use simple_riscv_emulator.Common.{
  ℕ, ◌+◌, ◌-◌, ◌/◌, ◌%◌, ◌^◌, ◌<◌, Bool, Option, subst, true, false, not, ◌&&◌, ◌==◌, if◌then◌else◌,
  u32, i32, to_u32, quot_ℤ, rem_ℤ, ◌≡◌, refl, sym, ap, ◌∙◌, arith,
}
use simple_riscv_emulator.GdbStub.Expression.{register_access_error}
use simple_riscv_emulator.GdbStub.Expression.Step.{
  signed_quotient, signed_remainder, unsigned_quotient, unsigned_remainder,
}
use simple_riscv_emulator.GdbStub.Expression.Run.{execute}
use simple_riscv_emulator.GdbStub.Expression.Tree.{
  Division, quotient, quotient_signed, remainder, remainder_signed, Expr, const, register, word_at,
  unary_op, binary_op, division, conditional, Value, value, failure, no_meaning, apply_unary, apply,
  bind, of_access, of_option, word, divided, divide_values, eval,
}
use simple_riscv_emulator.GdbStub.Expression.Compiler.{size, program}
use simple_riscv_emulator.GdbStub.Expression.Compiler.Program.{outcome, execute-eval}

-- Both operands are there to divide, and the quotient fits a word.
unfoldable pub is_divisible : Division → ℕ → ℕ → Bool
is_divisible quotient x y = not (x == 0) && not (y == 0)
is_divisible remainder x y = not (x == 0) && not (y == 0)
is_divisible _ x y = not (x == 0) && not (y == 0) && not ((x == 2 ^ 31) && (y == 2 ^ 32 - 1))

-- `x` divided by `y`, the signed ones with the quotient rounded to zero.
unfoldable pub divided_by : Division → ℕ → ℕ → ℕ
divided_by quotient x y = x / y
divided_by remainder x y = x % y
divided_by quotient_signed x y = to_u32 (quot_ℤ (i32 x) (i32 y))
divided_by remainder_signed x y = to_u32 (rem_ℤ (i32 x) (i32 y))

module _ {ℓ} {S : Type ℓ} where
  abbrev pub HasMeaning : Value S → Type 0
  HasMeaning (value env v) = Unit
  HasMeaning (failure env e) = Unit
  HasMeaning no_meaning = ⊥

  unfoldable pub quotient_value : Division → S → ℕ → ℕ → Value S
  unfolding is_divisible divided_by
  quotient_value op env x y =
      if is_divisible op x y then value env (divided_by op x y) else no_meaning

  -- The second value is the first one, if that is a value or a failure.
  abbrev Agrees : Value S → Value S → Type ℓ
  Agrees no_meaning w = Unit
  Agrees (value env v) w = value env v ≡ w
  Agrees (failure env e) w = failure env e ≡ w

  Agrees-refl : (v : Value S) → Agrees v v
  Agrees-refl (value env v) = refl
  Agrees-refl (failure env e) = refl
  Agrees-refl no_meaning = tt

  HasMeaning-Agrees : (v w : Value S) → HasMeaning v → Agrees v w → v ≡ w
  HasMeaning-Agrees (value env v) w h a = a
  HasMeaning-Agrees (failure env e) w h a = a
  HasMeaning-Agrees no_meaning w h a = absurd h

  bind-Agrees :
      (v w : Value S) (f g : S → ℕ → Value S)
      → Agrees v w
      → ((env : S) (a : ℕ) → Agrees (f env a) (g env a))
      → Agrees (bind v f) (bind w g)
  unfolding bind
  bind-Agrees (value env v) w f g a h = subst (λ w'. Agrees (f env v) (bind w' g)) a (h env v)
  bind-Agrees (failure env e) w f g a h = subst (λ w'. failure env e ≡ bind w' g) a refl
  bind-Agrees no_meaning w f g a h = tt

  divide_values-divisible :
      (op : Division) (env : S) (x y : ℕ)
      → is_divisible op x y ≡ true
      → value env (divided_by op x y) ≡ divide_values op env x y
  unfolding is_divisible divided_by divide_values divided of_option signed_quotient signed_remainder
      unsigned_quotient unsigned_remainder
  divide_values-divisible quotient env x y h = ground arith
  divide_values-divisible quotient_signed env x y h = ground arith
  divide_values-divisible remainder env x y h = ground arith
  divide_values-divisible remainder_signed env x y h = ground arith

  quotient-Agrees :
      (b : Bool) (op : Division) (env : S) (x y : ℕ)
      → is_divisible op x y ≡ b
      → Agrees (if b then value env (divided_by op x y) else no_meaning) (divide_values op env x y)
  quotient-Agrees true op env x y h = divide_values-divisible op env x y h
  quotient-Agrees false op env x y h = tt

  quotient_value-Agrees :
      (op : Division) (env : S) (x y : ℕ)
      → Agrees (quotient_value op env x y) (divide_values op env x y)
  unfolding quotient_value
  quotient_value-Agrees op env x y = quotient-Agrees (is_divisible op x y) op env x y refl

  arm-Agrees :
      (b : Bool) (v v' w w' : Value S)
      → Agrees v v'
      → Agrees w w'
      → Agrees (elim b [ true ↦ w | false ↦ v ]) (elim b [ true ↦ w' | false ↦ v' ])
  arm-Agrees true v v' w w' h k = k
  arm-Agrees false v v' w w' h k = h

module _ {ℓ} {S : Type ℓ} (access_memory access_register : S → ℕ → S × Option ℕ) where
  -- The second operand is evaluated first; of the arms of a conditional, only one.
  unfoldable pub meaning : Expr → S → Value S
  unfolding bind of_access word apply_unary apply quotient_value
  meaning (const n) env = value env (u32 n)
  meaning (register r) env = of_access register_access_error (access_register env (r % 2 ^ 16))
  meaning (word_at e) env = bind (meaning e env) (word access_memory access_register)
  meaning (unary_op op e) env = bind (meaning e env) λ env1 x. value env1 (apply_unary op x)
  meaning (binary_op op x y) env =
      bind (meaning y env) λ env1 b. bind (meaning x env1) λ env2 a. value env2 (apply op a b)
  meaning (division op x y) env =
      bind (meaning y env) λ env1 b. bind (meaning x env1) λ env2 a. quotient_value op env2 a b
  meaning (conditional c t f) env =
      bind (meaning c env)
        λ env1 b. elim (b == 0) [ true ↦ meaning f env1 | false ↦ meaning t env1 ]

  eval-Agrees :
      (e : Expr) (env : S) → Agrees (meaning e env) (eval access_memory access_register e env)
  unfolding meaning eval
  eval-Agrees (const n) env = refl
  eval-Agrees (register r) env = Agrees-refl _
  eval-Agrees (word_at e) env =
      bind-Agrees (meaning e env) (eval access_memory access_register e env) _ _ (eval-Agrees e env)
        λ env1 a. Agrees-refl _
  eval-Agrees (unary_op op e) env =
      bind-Agrees (meaning e env) (eval access_memory access_register e env) _ _ (eval-Agrees e env)
        λ env1 a. refl
  eval-Agrees (binary_op op x y) env =
      bind-Agrees (meaning y env) (eval access_memory access_register y env) _ _ (eval-Agrees y env)
        λ env1 b.
          bind-Agrees (meaning x env1) (eval access_memory access_register x env1) _ _
            (eval-Agrees x env1) λ env2 a. refl
  eval-Agrees (division op x y) env =
      bind-Agrees (meaning y env) (eval access_memory access_register y env) _ _ (eval-Agrees y env)
        λ env1 b.
          bind-Agrees (meaning x env1) (eval access_memory access_register x env1) _ _
            (eval-Agrees x env1) λ env2 a. quotient_value-Agrees op env2 a b
  eval-Agrees (conditional c t f) env =
      bind-Agrees (meaning c env) (eval access_memory access_register c env) _ _ (eval-Agrees c env)
        λ env1 b. arm-Agrees (b == 0) _ _ _ _ (eval-Agrees t env1) (eval-Agrees f env1)

  -- An expression of less than 2 ^ 16 bytes whose evaluation divides neither zero nor by zero, and
  -- has no signed quotient beyond a word, is compiled to a program for which some number of rounds
  -- is enough: with these, or any more, `execute` returns the expression's value from the top of
  -- the stack, with the caller's state as the accesses leave it, or the error of the access that
  -- fails; the accesses happen in the order of the tree, and only in the arm that a condition
  -- selects.
  pub execute-program :
      (e : Expr) (env : S)
      → size e < 2 ^ 16
      → HasMeaning (meaning e env)
      → (n : ℕ) × ((rounds : ℕ)
          → execute access_memory access_register (program e) (n + rounds) env
            ≡ outcome (meaning e env))
  execute-program e env l h =
      let (n, runs) = execute-eval access_memory access_register e env l in
      let same =
        HasMeaning-Agrees (meaning e env) (eval access_memory access_register e env) h
          (eval-Agrees e env) in
      (n, λ rounds. runs rounds ∙ ap outcome (sym same))
