-- ===== src/GdbStub/Expression/Compiler.antt =====
-- lib/gdb-stub/expression.cpp: the bytes for an expression tree, as a debugger sends them, and what
-- `execute` makes of them.
use simple_riscv_emulator.Common.{
  ℕ, ◌+◌, ◌/◌, ◌%◌, ◌^◌, List, [], ◌∷◌, ◌++◌, length, suc, ◌≡◌, refl, arith, length-append,
}
use simple_riscv_emulator.GdbStub.Expression.Bytecode.{
  Bytecode, to_u8, add, sub, mul, div_signed, div_unsigned, rem_signed, rem_unsigned, lsh,
  rsh_signed, rsh_unsigned, log_not, bit_and_op, bit_or_op, bit_xor_op, bit_not, equal, less_signed,
  less_unsigned, ref32, if_goto, goto, const32, reg, end,
}
use simple_riscv_emulator.GdbStub.Expression.Tree.{
  Expr, const, register, word_at, unary_op, binary_op, division, conditional, UnaryOp, negation,
  complement, BinaryOp, sum, difference, product, shift_left, shift_right, shift_right_signed,
  conjunction, disjunction, exclusive, equality, less, less_than_signed, Division, quotient,
  quotient_signed, remainder, remainder_signed,
}
pub mod Reaches
pub mod Rounds
pub mod Correct
pub mod Program

abbrev pub unary_bytecode : UnaryOp → Bytecode
unary_bytecode negation = log_not
unary_bytecode complement = bit_not

abbrev pub binary_bytecode : BinaryOp → Bytecode
binary_bytecode sum = add
binary_bytecode difference = sub
binary_bytecode product = mul
binary_bytecode shift_left = lsh
binary_bytecode shift_right = rsh_unsigned
binary_bytecode shift_right_signed = rsh_signed
binary_bytecode conjunction = bit_and_op
binary_bytecode disjunction = bit_or_op
binary_bytecode exclusive = bit_xor_op
binary_bytecode equality = equal
binary_bytecode less = less_unsigned
binary_bytecode less_than_signed = less_signed

abbrev pub division_bytecode : Division → Bytecode
division_bytecode quotient = div_unsigned
division_bytecode quotient_signed = div_signed
division_bytecode remainder = rem_unsigned
division_bytecode remainder_signed = rem_signed

-- An operation with a 16-bit operand.
abbrev pub with_u16 : Bytecode → ℕ → List ℕ
with_u16 op n = to_u8 op ∷ (n / 2 ^ 8 % 2 ^ 8) ∷ (n % 2 ^ 8) ∷ []

abbrev pub with_u32 : Bytecode → ℕ → List ℕ
with_u32 op n =
    to_u8 op ∷ (n / 2 ^ 24 % 2 ^ 8) ∷ (n / 2 ^ 16 % 2 ^ 8) ∷ (n / 2 ^ 8 % 2 ^ 8) ∷ (n % 2 ^ 8) ∷ []

unfoldable pub size : Expr → ℕ
size (const n) = 5
size (register r) = 3
size (word_at e) = size e + 1
size (unary_op op e) = size e + 1
size (binary_op op x y) = size y + size x + 1
size (division op x y) = size y + size x + 1
size (conditional c t f) = size c + 3 + size f + 3 + size t

-- The bytes of an expression that starts at `pc`: jumps name places in the whole sequence.
unfoldable pub compile : ℕ → Expr → List ℕ
unfolding to_u8 size
compile pc (const n) = with_u32 const32 n
compile pc (register r) = with_u16 reg r
compile pc (word_at e) = compile pc e ++ to_u8 ref32 ∷ []
compile pc (unary_op op e) = compile pc e ++ to_u8 (unary_bytecode op) ∷ []
compile pc (binary_op op x y) =
    compile pc y ++ (compile (pc + size y) x ++ to_u8 (binary_bytecode op) ∷ [])
compile pc (division op x y) =
    compile pc y ++ (compile (pc + size y) x ++ to_u8 (division_bytecode op) ∷ [])
compile pc (conditional c t f) =
    let first = pc + size c in
    let arm = first + 3 + size f + 3 in
    compile pc c
    ++ (with_u16 if_goto arm
        ++ (compile (first + 3) f ++ (with_u16 goto (arm + size t) ++ compile arm t)))

-- A whole sequence.
unfoldable pub program : Expr → List ℕ
unfolding compile to_u8
program e = compile 0 e ++ to_u8 end ∷ []

two_operands :
    (ys xs : List ℕ) (b : ℕ) {m n : ℕ}
    → length ys ≡ m
    → length xs ≡ n
    → length (ys ++ (xs ++ b ∷ [])) ≡ m + n + 1
two_operands ys xs b e f = omega (arith, length-append ys (xs ++ b ∷ []), length-append xs (b ∷ []))

pub length-compile : (pc : ℕ) (e : Expr) → length (compile pc e) ≡ size e
unfolding compile size to_u8
length-compile pc (const n) = refl
length-compile pc (register r) = refl
length-compile pc (word_at e) =
    omega (arith, length-append (compile pc e) (to_u8 ref32 ∷ []), length-compile pc e)
length-compile pc (unary_op op e) =
    omega
      (arith, length-append (compile pc e) (to_u8 (unary_bytecode op) ∷ []), length-compile pc e)
length-compile pc (binary_op op x y) =
    two_operands (compile pc y) (compile (pc + size y) x) (to_u8 (binary_bytecode op))
      (length-compile pc y) (length-compile (pc + size y) x)
length-compile pc (division op x y) =
    two_operands (compile pc y) (compile (pc + size y) x) (to_u8 (division_bytecode op))
      (length-compile pc y) (length-compile (pc + size y) x)
length-compile pc (conditional c t f) =
    let first = pc + size c in
    let arm = first + 3 + size f + 3 in
    let rest = compile (first + 3) f ++ (with_u16 goto (arm + size t) ++ compile arm t) in
    omega (
      arith,
      length-append (compile pc c) (with_u16 if_goto arm ++ rest),
      length-append (compile (first + 3) f) (with_u16 goto (arm + size t) ++ compile arm t),
      length-compile pc c,
      length-compile (first + 3) f,
      length-compile arm t,
    )
