-- ===== src/GdbStub/Expression/Step.antt =====
-- lib/gdb-stub/expression.cpp: one round of the loop of `execute`, its `switch` in four parts, each
-- of which hands what it does not name to the next.
use simple_riscv_emulator.Common.{
  ℕ, ◌+◌, ◌-◌, ◌*◌, ◌/◌, ◌%◌, ◌^◌, Bool, ◌&&◌, ◌||◌, Option, none, some, List, [], ◌∷◌, ok, ltb,
  leb, ◌==◌, if◌then◌else◌, u32, sub32, not32, i32, to_u32, ◌<<<◌, ◌>>>◌, ltb_ℤ, quot_ℤ, rem_ℤ,
  shr_ℤ, bit_and, bit_or, bit_xor,
}
use simple_riscv_emulator.GdbStub.Expression.{
  Machine, Progress, running, returned, undefined, unsupported_bytecode, division_by_zero,
  memory_access_error, register_access_error, fail, pop, get_stack_at_index, get_op_at_index,
  from_access,
}
use simple_riscv_emulator.GdbStub.Expression.Bytecode.{
  Bytecode, add, sub, mul, div_signed, div_unsigned, rem_signed, rem_unsigned, lsh, rsh_signed,
  rsh_unsigned, log_not, bit_and_op, bit_or_op, bit_xor_op, bit_not, equal, less_signed,
  less_unsigned, ext, zero_ext, ref8, ref16, ref32, dup, swap, pop_op, pick, rot, if_goto, goto,
  const8, const16, const32, reg, end, from_u8,
}

-- `cond ? 1 : 0`.
abbrev pub flag : Bool → ℕ
flag b = if b then 1 else 0

-- The words that `std::bit_cast` makes of bytes, the least significant first.
abbrev pub cast16 : ℕ → ℕ → ℕ
cast16 b0 b1 = b0 + b1 * 2 ^ 8

abbrev pub cast32 : ℕ → ℕ → ℕ → ℕ → ℕ
cast32 b0 b1 b2 b3 = b0 + b1 * 2 ^ 8 + b2 * 2 ^ 16 + b3 * 2 ^ 24

-- The divisions of `b` by `a`: a divisor of zero, and the one quotient that does not fit, are
-- undefined.
abbrev pub overflows : ℕ → ℕ → Bool
overflows b a = b == 2 ^ 31 && a == 2 ^ 32 - 1

unfoldable pub signed_quotient : ℕ → ℕ → Option ℕ
signed_quotient b a =
    if a == 0 || overflows b a then none else some (to_u32 (quot_ℤ (i32 b) (i32 a)))

unfoldable pub signed_remainder : ℕ → ℕ → Option ℕ
signed_remainder b a =
    if a == 0 || overflows b a then none else some (to_u32 (rem_ℤ (i32 b) (i32 a)))

unfoldable pub unsigned_quotient : ℕ → ℕ → Option ℕ
unsigned_quotient b a = if a == 0 then none else some (b / a)

unfoldable pub unsigned_remainder : ℕ → ℕ → Option ℕ
unsigned_remainder b a = if a == 0 then none else some (b % a)

-- `Ext` and `Zero_ext` of `n` bits; a shift by a negative number or by all of a word is undefined.
unfoldable pub sign_extend : ℕ → ℕ → Option ℕ
sign_extend a n =
    if n == 0 || ltb 32 n then none else some (to_u32 (shr_ℤ (i32 (u32 (a <<< (32 - n)))) (32 - n)))

unfoldable pub zero_extend : ℕ → ℕ → Option ℕ
zero_extend a n = if leb 32 n then none else some (bit_and a (sub32 (1 <<< n) 1))

module _ {ℓ} {S : Type ℓ} where
  -- `pc += n` with a new stack.
  unfoldable pub next : Machine S → ℕ → List ℕ → Progress S
  next m n stack = running (record m { pc = m.pc + n; stack = stack })

  unfoldable pub next_if_defined : Machine S → ℕ → List ℕ → Option ℕ → Progress S
  unfolding next
  next_if_defined m n stack none = undefined
  next_if_defined m n stack (some value) = next m n (value ∷ stack)

  -- `POP_STACK` of one value, and `GET_TOP_TWO_STACK`, with the value that is pushed.
  unfoldable pub unary : Machine S → (ℕ → ℕ) → Progress S
  unfolding pop next
  unary m f = pop m.env m.stack λ a s. next m 1 (f a ∷ s)

  unfoldable pub binary : Machine S → (ℕ → ℕ → ℕ) → Progress S
  unfolding pop next
  binary m f = pop m.env m.stack λ b s. pop m.env s λ a s'. next m 1 (f a b ∷ s')

  unfoldable pub divide : Machine S → (ℕ → ℕ → Option ℕ) → Progress S
  unfolding pop next_if_defined
  divide m f = pop m.env m.stack λ b s.
      pop m.env s
        λ a s'. if b == 0 then fail m.env division_by_zero else next_if_defined m 1 s' (f b a)

  -- `End`: the value on top, and the one below it if there is one.
  unfoldable pub finish : S → ℕ → List ℕ → Progress S
  finish env top [] = returned env (ok (record { top = top; next_to_top = none }))
  finish env top (next_to_top ∷ s) =
      returned env (ok (record { top = top; next_to_top = some next_to_top }))

module _ {ℓ} {S : Type ℓ} (access_memory access_register : S → ℕ → S × Option ℕ)
    (code : List ℕ) where
  -- Two operand bytes, the most significant first.
  unfoldable pub operand16 : Machine S → (ℕ → Progress S) → Progress S
  unfolding get_op_at_index
  operand16 m k =
      get_op_at_index m.env code (m.pc + 1)
        λ b1. get_op_at_index m.env code (m.pc + 2) λ b0. k (cast16 b0 b1)

  unfoldable pub load : S → ℕ → (S → ℕ → Progress S) → Progress S
  unfolding from_access
  load env addr k = from_access memory_access_error (access_memory env addr) k

  unfoldable pub control : Machine S → Bytecode → Progress S
  unfolding pop next finish
  control m if_goto = pop m.env m.stack λ a s.
      if a == 0
      then next m 3 s
      else operand16 m λ target. running (record m { pc = target; stack = s })
  control m goto = operand16 m λ target. running (record m { pc = target })
  control m const8 = get_op_at_index m.env code (m.pc + 1) λ value. next m 2 (value ∷ m.stack)
  control m const16 = operand16 m λ value. next m 3 (value ∷ m.stack)
  control m const32 = get_op_at_index m.env code (m.pc + 1) λ b3.
      get_op_at_index m.env code (m.pc + 2) λ b2.
        get_op_at_index m.env code (m.pc + 3)
          λ b1. get_op_at_index m.env code (m.pc + 4) λ b0. next m 5 (cast32 b0 b1 b2 b3 ∷ m.stack)
  control m reg = operand16 m λ index.
      from_access register_access_error (access_register m.env index)
        λ env value. next (record m { env = env }) 3 (value ∷ m.stack)
  control m end = pop m.env m.stack λ top s. finish m.env top s
  control m _ = fail m.env unsupported_bytecode

  unfoldable pub stack_operation : Machine S → Bytecode → Progress S
  unfolding pop next control
  stack_operation m dup = pop m.env m.stack λ a s. next m 1 (a ∷ a ∷ s)
  stack_operation m swap = pop m.env m.stack λ a s. pop m.env s λ b s'. next m 1 (b ∷ a ∷ s')
  stack_operation m pop_op = pop m.env m.stack λ a s. next m 1 s
  stack_operation m pick =
      get_op_at_index m.env code (m.pc + 1)
        λ n. get_stack_at_index m.env m.stack n λ value. next m 2 (value ∷ m.stack)
  stack_operation m rot =
      pop m.env m.stack λ c s. pop m.env s λ b s'. pop m.env s' λ a s''. next m 1 (b ∷ a ∷ c ∷ s'')
  stack_operation m op = control m op

  unfoldable pub memory_operation : Machine S → Bytecode → Progress S
  unfolding pop next next_if_defined stack_operation
  memory_operation m ext =
      get_op_at_index m.env code (m.pc + 1)
        λ n. pop m.env m.stack λ a s. next_if_defined m 2 s (sign_extend a n)
  memory_operation m zero_ext =
      get_op_at_index m.env code (m.pc + 1)
        λ n. pop m.env m.stack λ a s. next_if_defined m 2 s (zero_extend a n)
  memory_operation m ref8 =
      pop m.env m.stack
        λ addr s. load m.env addr λ env value. next (record m { env = env }) 1 (value ∷ s)
  memory_operation m ref16 = pop m.env m.stack λ addr s. load m.env addr λ env b0.
      load env (u32 (addr + 1)) λ env' b1. next (record m { env = env' }) 1 (cast16 b0 b1 ∷ s)
  memory_operation m ref32 = pop m.env m.stack λ addr s. load m.env addr λ env b0.
      load env (u32 (addr + 1)) λ env' b1. load env' (u32 (addr + 2)) λ env2 b2.
        load env2 (u32 (addr + 3))
          λ env3 b3. next (record m { env = env3 }) 1 (cast32 b0 b1 b2 b3 ∷ s)
  memory_operation m op = stack_operation m op

  -- The operand that is pushed last is `b`.
  unfoldable pub arithmetic : Machine S → Bytecode → Progress S
  unfolding unary binary divide memory_operation
  arithmetic m add = binary m λ a b. u32 (a + b)
  arithmetic m sub = binary m λ a b. sub32 b a
  arithmetic m mul = binary m λ a b. u32 (a * b)
  arithmetic m div_signed = divide m signed_quotient
  arithmetic m div_unsigned = divide m unsigned_quotient
  arithmetic m rem_signed = divide m signed_remainder
  arithmetic m rem_unsigned = divide m unsigned_remainder
  arithmetic m lsh = binary m λ a b. u32 (b <<< bit_and a 0x1f)
  arithmetic m rsh_signed = binary m λ a b. to_u32 (shr_ℤ (i32 b) (bit_and a 0x1f))
  arithmetic m rsh_unsigned = binary m λ a b. b >>> bit_and a 0x1f
  arithmetic m log_not = unary m λ a. flag (a == 0)
  arithmetic m bit_and_op = binary m λ a b. bit_and a b
  arithmetic m bit_or_op = binary m λ a b. bit_or a b
  arithmetic m bit_xor_op = binary m λ a b. bit_xor a b
  arithmetic m bit_not = unary m λ a. not32 a
  arithmetic m equal = binary m λ a b. flag (a == b)
  arithmetic m less_signed = binary m λ a b. flag (ltb_ℤ (i32 b) (i32 a))
  arithmetic m less_unsigned = binary m λ a b. flag (ltb b a)
  arithmetic m op = memory_operation m op

  unfoldable pub switch : Machine S → Option Bytecode → Progress S
  unfolding arithmetic
  switch m none = fail m.env unsupported_bytecode
  switch m (some op) = arithmetic m op

  -- One round: the operation at `pc`, and its case.
  unfoldable pub step : Machine S → Progress S
  unfolding switch from_u8
  step m = get_op_at_index m.env code m.pc λ op. switch m (from_u8 op)
