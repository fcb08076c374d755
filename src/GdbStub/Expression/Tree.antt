-- ===== src/GdbStub/Expression/Tree.antt =====
-- lib/gdb-stub/expression.cpp: what the code computes, on expressions as trees rather than on bytes;
-- its divisions, with their test for zero, are those of the bytecode. The operand that ends on top of
-- the stack stands first.
use simple_riscv_emulator.Common.{
  ℕ, ◌+◌, ◌*◌, ◌%◌, ◌^◌, Option, none, some, true, false, ltb, ◌==◌, if◌then◌else◌, u32, sub32,
  not32, i32, to_u32, ◌<<<◌, ◌>>>◌, ltb_ℤ, shr_ℤ, bit_and, bit_or, bit_xor,
}
use simple_riscv_emulator.GdbStub.Expression.{
  ExecuteError, division_by_zero, memory_access_error, register_access_error,
}
use simple_riscv_emulator.GdbStub.Expression.Step.{
  flag, cast32, signed_quotient, signed_remainder, unsigned_quotient, unsigned_remainder,
}

pub data UnaryOp : Type 0 where
  negation : UnaryOp
  complement : UnaryOp

pub data BinaryOp : Type 0 where
  sum : BinaryOp
  difference : BinaryOp
  product : BinaryOp
  shift_left : BinaryOp
  shift_right : BinaryOp
  shift_right_signed : BinaryOp
  conjunction : BinaryOp
  disjunction : BinaryOp
  exclusive : BinaryOp
  equality : BinaryOp
  less : BinaryOp
  less_than_signed : BinaryOp

pub data Division : Type 0 where
  quotient : Division
  quotient_signed : Division
  remainder : Division
  remainder_signed : Division

pub data Expr : Type 0 where
  const : ℕ → Expr
  register : ℕ → Expr
  word_at : Expr → Expr
  unary_op : UnaryOp → Expr → Expr
  binary_op : BinaryOp → Expr → Expr → Expr
  division : Division → Expr → Expr → Expr
  conditional : Expr → Expr → Expr → Expr

pub data Value {ℓ} (S : Type ℓ) : Type ℓ where
  value : S → ℕ → Value S
  failure : S → ExecuteError → Value S
  no_meaning : Value S

unfoldable pub apply_unary : UnaryOp → ℕ → ℕ
apply_unary negation x = flag (x == 0)
apply_unary complement x = not32 x

unfoldable pub apply : BinaryOp → ℕ → ℕ → ℕ
apply sum x y = u32 (y + x)
apply difference x y = sub32 x y
apply product x y = u32 (y * x)
apply shift_left x y = u32 (x <<< bit_and y 0x1f)
apply shift_right x y = x >>> bit_and y 0x1f
apply shift_right_signed x y = to_u32 (shr_ℤ (i32 x) (bit_and y 0x1f))
apply conjunction x y = bit_and y x
apply disjunction x y = bit_or y x
apply exclusive x y = bit_xor y x
apply equality x y = flag (y == x)
apply less x y = flag (ltb x y)
apply less_than_signed x y = flag (ltb_ℤ (i32 x) (i32 y))

unfoldable pub divided : Division → ℕ → ℕ → Option ℕ
divided quotient x y = unsigned_quotient x y
divided quotient_signed x y = signed_quotient x y
divided remainder x y = unsigned_remainder x y
divided remainder_signed x y = signed_remainder x y

module _ {ℓ} {S : Type ℓ} where
  unfoldable pub bind : Value S → (S → ℕ → Value S) → Value S
  bind (value env v) f = f env v
  bind (failure env e) f = failure env e
  bind no_meaning f = no_meaning

  unfoldable pub of_access : ExecuteError → S × Option ℕ → Value S
  of_access e (env, none) = failure env e
  of_access e (env, some v) = value env v

  unfoldable pub of_option : S → Option ℕ → Value S
  of_option env none = no_meaning
  of_option env (some v) = value env v

  unfoldable pub divide_values : Division → S → ℕ → ℕ → Value S
  unfolding of_option divided
  divide_values op env x y =
      if x == 0 then failure env division_by_zero else of_option env (divided op x y)

module _ {ℓ} {S : Type ℓ} (access_memory access_register : S → ℕ → S × Option ℕ) where
  -- The word in the four bytes from an address, which may be any.
  unfoldable pub word : S → ℕ → Value S
  unfolding bind of_access
  word env addr = bind (of_access memory_access_error (access_memory env addr)) λ env1 b0.
      bind (of_access memory_access_error (access_memory env1 (u32 (addr + 1)))) λ env2 b1.
        bind (of_access memory_access_error (access_memory env2 (u32 (addr + 2)))) λ env3 b2.
          bind (of_access memory_access_error (access_memory env3 (u32 (addr + 3))))
            λ env4 b3. value env4 (cast32 b0 b1 b2 b3)

  -- The second operand is evaluated first; of the arms of a conditional, only one.
  unfoldable pub eval : Expr → S → Value S
  unfolding bind of_access word apply_unary apply divide_values
  eval (const n) env = value env (u32 n)
  eval (register r) env = of_access register_access_error (access_register env (r % 2 ^ 16))
  eval (word_at e) env = bind (eval e env) word
  eval (unary_op op e) env = bind (eval e env) λ env1 x. value env1 (apply_unary op x)
  eval (binary_op op x y) env =
      bind (eval y env) λ env1 b. bind (eval x env1) λ env2 a. value env2 (apply op a b)
  eval (division op x y) env =
      bind (eval y env) λ env1 b. bind (eval x env1) λ env2 a. divide_values op env2 a b
  eval (conditional c t f) env =
      bind (eval c env) λ env1 b. elim (b == 0) [ true ↦ eval f env1 | false ↦ eval t env1 ]
