-- ===== src/GdbStub/Expression/Compiler/Rounds.antt =====
-- lib/gdb-stub/expression.cpp: one round of `execute` for each operation of a compiled expression.
use simple_riscv_emulator.Common.{
  ℕ, ◌+◌, ◌/◌, ◌%◌, ◌^◌, ◌<◌, ◌==◌, if◌then◌else◌, Option, some, none, List, ◌∷◌, get_elem?, u32,
  ◌≡◌, inl, inr, refl, ap, ◌∙◌, arith, Bool-cases,
}
use simple_riscv_emulator.GdbStub.Expression.{
  Machine, Progress, running, ExecuteError, division_by_zero, register_access_error,
  get_op_at_index, or_fail, pop, from_access,
}
use simple_riscv_emulator.GdbStub.Expression.Bytecode.{
  Bytecode, to_u8, const32, reg, ref32, if_goto, goto, log_not, bit_not,
}
use simple_riscv_emulator.GdbStub.Expression.Step.{
  step, arithmetic, memory_operation, stack_operation, control, next, next_if_defined, unary,
  binary, divide, load, operand16, cast16, cast32, unsigned_quotient, unsigned_remainder,
  signed_quotient, signed_remainder,
}
use simple_riscv_emulator.GdbStub.Expression.Run.{run}
use simple_riscv_emulator.GdbStub.Expression.Tree.{
  Value, value, failure, bind, of_access, of_option, divide_values, divided, word, apply,
  apply_unary, UnaryOp, negation, complement, BinaryOp, sum, difference, product, shift_left,
  shift_right, shift_right_signed, conjunction, disjunction, exclusive, equality, less,
  less_than_signed, Division, quotient, quotient_signed, remainder, remainder_signed,
}
use simple_riscv_emulator.GdbStub.Expression.Compiler.{
  with_u16, with_u32, unary_bytecode, binary_bytecode, division_bytecode,
}
use simple_riscv_emulator.GdbStub.Expression.Compiler.Reaches.{At, At-get, after, step_at}

cast32-u32 :
    (n : ℕ)
    → cast32 (n % 2 ^ 8) (n / 2 ^ 8 % 2 ^ 8) (n / 2 ^ 16 % 2 ^ 8) (n / 2 ^ 24 % 2 ^ 8) ≡ u32 n
cast32-u32 n = omega arith

cast16-u16 : (n : ℕ) → cast16 (n % 2 ^ 8) (n / 2 ^ 8 % 2 ^ 8) ≡ n % 2 ^ 16
cast16-u16 n = omega arith

module _ {ℓ} {S : Type ℓ} (access_memory access_register : S → ℕ → S × Option ℕ)
    (code : List ℕ) where
  abbrev pub one_step : Machine S → Progress S
  one_step = step access_memory access_register code

  abbrev pub result : ℕ → List ℕ → Value S → Progress S
  result pc s v = after access_memory access_register code pc s v 0

  abbrev pub at : ℕ → List ℕ → S → Machine S
  at pc s env = record { pc = pc; stack = s; env = env }

  pub const_step :
      (pc n : ℕ) (s : List ℕ) (env : S)
      → At code pc (with_u32 const32 n)
      → one_step (at pc s env) ≡ result (pc + 5) s (value env (u32 n))
  unfolding arithmetic memory_operation stack_operation control get_op_at_index or_fail next run
  const_step pc n s env a =
      step_at access_memory access_register code (at pc s env) const32 a.0
      ∙ rw
          (
            At-get code pc (with_u32 const32 n) 1 _ a refl,
            At-get code pc (with_u32 const32 n) 2 _ a refl,
            At-get code pc (with_u32 const32 n) 3 _ a refl,
            At-get code pc (with_u32 const32 n) 4 _ a refl,
          )
          (ap (λ v. running (at (pc + 5) (v ∷ s) env)) (cast32-u32 n))

  operand16-u16 :
      (m : Machine S) (op : Bytecode) (n : ℕ) (k : ℕ → Progress S)
      → At code m.pc (with_u16 op n)
      → operand16 access_memory access_register code m k ≡ k (n % 2 ^ 16)
  unfolding operand16 get_op_at_index or_fail
  operand16-u16 m op n k a =
      rw (At-get code m.pc (with_u16 op n) 1 _ a refl, At-get code m.pc (with_u16 op n) 2 _ a refl)
        (ap k (cast16-u16 n))

  -- An access, and what follows it, in both readings.
  from_access-result :
      (e : ExecuteError) (o : S × Option ℕ) (k : S → ℕ → Progress S) (f : S → ℕ → Value S) (pc : ℕ)
      (s : List ℕ)
      → ((env : S) (v : ℕ) → k env v ≡ result pc s (f env v))
      → from_access e o k ≡ result pc s (bind (of_access e o) f)
  unfolding from_access of_access bind
  from_access-result e (env, none) k f pc s h = refl
  from_access-result e (env, some v) k f pc s h = h env v

  of_access-result :
      (e : ExecuteError) (o : S × Option ℕ) (pc n : ℕ) (s : List ℕ)
      → from_access e o (λ env v. next (at pc s env) n (v ∷ s)) ≡ result (pc + n) s (of_access e o)
  unfolding from_access of_access next run
  of_access-result e (env, none) pc n s = refl
  of_access-result e (env, some v) pc n s = refl

  pub register_step :
      (pc r : ℕ) (s : List ℕ) (env : S)
      → At code pc (with_u16 reg r)
      → one_step (at pc s env)
        ≡ result (pc + 3) s (of_access register_access_error (access_register env (r % 2 ^ 16)))
  unfolding arithmetic memory_operation stack_operation control next run
  register_step pc r s env a =
      step_at access_memory access_register code (at pc s env) reg a.0
      ∙ operand16-u16 (at pc s env) reg r _ a
      ∙ of_access-result _ (access_register env (r % 2 ^ 16)) pc 3 s

  pub word_step :
      (pc addr : ℕ) (s : List ℕ) (env : S)
      → get_elem? code pc ≡ some (to_u8 ref32)
      → one_step (at pc (addr ∷ s) env)
        ≡ result (pc + 1) s (word access_memory access_register env addr)
  unfolding arithmetic memory_operation load next run word pop
  word_step pc addr s env a =
      step_at access_memory access_register code (at pc (addr ∷ s) env) ref32 a
      ∙ from_access-result _ (access_memory env addr) _ _ (pc + 1) s λ env1 b0.
        from_access-result _ (access_memory env1 (u32 (addr + 1))) _ _ (pc + 1) s λ env2 b1.
          from_access-result _ (access_memory env2 (u32 (addr + 2))) _ _ (pc + 1) s λ env3 b2.
            from_access-result _ (access_memory env3 (u32 (addr + 3))) _ _ (pc + 1) s
              λ env4 b3. refl

  pub unary_step :
      (op : UnaryOp) (pc x : ℕ) (s : List ℕ) (env : S)
      → get_elem? code pc ≡ some (to_u8 (unary_bytecode op))
      → one_step (at pc (x ∷ s) env) ≡ result (pc + 1) s (value env (apply_unary op x))
  unfolding arithmetic unary next run apply_unary pop
  unary_step negation pc x s env a =
      step_at access_memory access_register code (at pc (x ∷ s) env) log_not a
  unary_step complement pc x s env a =
      step_at access_memory access_register code (at pc (x ∷ s) env) bit_not a

  pub binary_result :
      (op : BinaryOp) (pc x y : ℕ) (s : List ℕ) (env : S)
      → arithmetic access_memory access_register code (at pc (x ∷ y ∷ s) env) (binary_bytecode op)
        ≡ result (pc + 1) s (value env (apply op x y))
  unfolding arithmetic binary next run apply pop
  binary_result sum pc x y s env = refl
  binary_result difference pc x y s env = refl
  binary_result product pc x y s env = refl
  binary_result shift_left pc x y s env = refl
  binary_result shift_right pc x y s env = refl
  binary_result shift_right_signed pc x y s env = refl
  binary_result conjunction pc x y s env = refl
  binary_result disjunction pc x y s env = refl
  binary_result exclusive pc x y s env = refl
  binary_result equality pc x y s env = refl
  binary_result less pc x y s env = refl
  binary_result less_than_signed pc x y s env = refl

  next_if_defined-result :
      (m : Machine S) (s : List ℕ) (o : Option ℕ)
      → next_if_defined m 1 s o ≡ result (m.pc + 1) s (of_option m.env o)
  unfolding next_if_defined next of_option run
  next_if_defined-result m s none = refl
  next_if_defined-result m s (some v) = refl

  divide-result :
      (pc x y : ℕ) (s : List ℕ) (env : S) (f : ℕ → ℕ → Option ℕ)
      → divide (at pc (x ∷ y ∷ s) env) f
        ≡ result (pc + 1) s (if x == 0 then failure env division_by_zero else of_option env (f x y))
  unfolding divide pop
  divide-result pc x y s env f = elim (Bool-cases (x == 0)) [
    | inl z ↦ rw z refl
    | inr nz ↦ rw nz (next_if_defined-result (at pc (x ∷ y ∷ s) env) s (f x y))
  ]

  pub division_result :
      (op : Division) (pc x y : ℕ) (s : List ℕ) (env : S)
      → arithmetic access_memory access_register code (at pc (x ∷ y ∷ s) env) (division_bytecode op)
        ≡ result (pc + 1) s (divide_values op env x y)
  unfolding arithmetic divide_values divided
  division_result quotient pc x y s env = divide-result pc x y s env unsigned_quotient
  division_result quotient_signed pc x y s env = divide-result pc x y s env signed_quotient
  division_result remainder pc x y s env = divide-result pc x y s env unsigned_remainder
  division_result remainder_signed pc x y s env = divide-result pc x y s env signed_remainder

  pub goto_step :
      (pc n : ℕ) (s : List ℕ) (env : S)
      → At code pc (with_u16 goto n)
      → n < 2 ^ 16
      → one_step (at pc s env) ≡ running (at n s env)
  unfolding arithmetic memory_operation stack_operation control
  goto_step pc n s env a l =
      let small : n % 2 ^ 16 ≡ n = omega arith in
      step_at access_memory access_register code (at pc s env) goto a.0
      ∙ operand16-u16 (at pc s env) goto n _ a
      ∙ ap (λ t. running (at t s env)) small

  pub if_goto_step :
      (pc n x : ℕ) (s : List ℕ) (env : S)
      → At code pc (with_u16 if_goto n)
      → n < 2 ^ 16
      → one_step (at pc (x ∷ s) env) ≡ running (at (if x == 0 then pc + 3 else n) s env)
  unfolding arithmetic memory_operation stack_operation control next pop
  if_goto_step pc n x s env a l =
      let small : n % 2 ^ 16 ≡ n = omega arith in
      step_at access_memory access_register code (at pc (x ∷ s) env) if_goto a.0
      ∙ (elim (Bool-cases (x == 0)) [
        | inl z ↦ rw z refl
        | inr nz ↦
            rw nz (
              operand16-u16 (at pc (x ∷ s) env) if_goto n _ a
              ∙ ap (λ t. running (at t s env)) small)
      ])
