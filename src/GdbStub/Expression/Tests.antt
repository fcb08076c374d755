-- ===== src/GdbStub/Expression/Tests.antt =====
-- lib/gdb-stub/expression.cpp: runs of short expressions.
use simple_riscv_emulator.Common.{
  ℕ, suc, ◌+◌, ◌-◌, ◌^◌, ◌<◌, true, Option, none, some, List, [], ◌∷◌, length, ok, unexpected, ltb,
  if◌then◌else◌, ◌≡◌, refl, arith,
}
use simple_riscv_emulator.GdbStub.Expression.{
  returned, undefined, division_by_zero, get_op_at_index,
}
use simple_riscv_emulator.GdbStub.Expression.Bytecode.{from_u8}
use simple_riscv_emulator.GdbStub.Expression.Step.{unsigned_quotient}
use simple_riscv_emulator.GdbStub.Expression.Run.{execute}
use simple_riscv_emulator.GdbStub.Expression.Run.Jumps.{is_forward}
use simple_riscv_emulator.GdbStub.Expression.Run.Forward.{HasEnded, execute-HasEnded}
use simple_riscv_emulator.GdbStub.Expression.Tree.{
  Expr, const, register, word_at, binary_op, division, conditional, less, quotient,
}
use simple_riscv_emulator.GdbStub.Expression.Compiler.{size, program}
use simple_riscv_emulator.GdbStub.Expression.Compiler.Program.{outcome}
use simple_riscv_emulator.GdbStub.Expression.Meaning.{HasMeaning, meaning, execute-program}

-- A memory whose bytes are their addresses, up to 255, and registers that count the reads.
abbrev access_memory : ℕ → ℕ → ℕ × Option ℕ
access_memory env addr = (env + 1, if ltb addr 256 then some addr else none)

abbrev access_register : ℕ → ℕ → ℕ × Option ℕ
access_register env r = (env + 1, if ltb r 32 then some (r + 100) else none)

-- Two constants, the operation, and the end.
abbrev two_constants : ℕ → ℕ → ℕ → List ℕ
two_constants a b op = 0x22 ∷ a ∷ 0x22 ∷ b ∷ op ∷ 0x27 ∷ []

-- The constant pushed last is the first operand: 7 - 10, where 10 - 7 is due.
subtract_reversed :
    execute access_memory access_register (two_constants 10 7 0x03) 4 0
    ≡ returned 0 (ok (record { top = 2 ^ 32 - 3; next_to_top = none }))
unfolding execute get_op_at_index unsigned_quotient
subtract_reversed = refl

-- 0 / 3 is reported as a division by zero.
divide_zero :
    execute access_memory access_register (two_constants 3 0 0x06) 4 0
    ≡ returned 0 (unexpected division_by_zero)
unfolding execute get_op_at_index unsigned_quotient
divide_zero = refl

-- 3 / 0 is not, and has no meaning in C++.
divide_by_zero : execute access_memory access_register (two_constants 0 3 0x06) 4 0 ≡ undefined
unfolding execute get_op_at_index unsigned_quotient
divide_by_zero = refl

-- x10 < 150 ? the word at 16 : 1 / 0, with operands as the program takes them.
abbrev guarded : Expr
guarded =
    conditional (binary_op less (register 10) (const 150)) (word_at (const 16))
      (division quotient (const 0) (const 1))

guarded_value :
    outcome (meaning access_memory access_register guarded 0)
    ≡ returned 5 (ok (record { top = 0x1312_1110; next_to_top = none }))
unfolding outcome meaning
guarded_value = refl

guarded_defined : HasMeaning (meaning access_memory access_register guarded 0)
unfolding meaning
guarded_defined = tt

guarded_size : size guarded < 2 ^ 16
unfolding size
guarded_size = omega arith

guarded_forward : is_forward (program guarded) ≡ true
unfolding is_forward program from_u8
guarded_forward = refl

-- A constant one of whose bytes is the number of a jump.
jump_in_constant : is_forward (0x24 ∷ 0x00 ∷ 0x21 ∷ 0x00 ∷ 0x00 ∷ 0x27 ∷ []) ≡ true
unfolding is_forward from_u8
jump_in_constant = refl

execute-HasEnded_example :
    HasEnded
      (execute access_memory access_register (program guarded) (suc (length (program guarded))) 0)
execute-HasEnded_example =
    execute-HasEnded access_memory access_register (program guarded) 0 guarded_forward

execute-program_example :
    (n : ℕ) × ((rounds : ℕ)
      → execute access_memory access_register (program guarded) (n + rounds) 0
        ≡ outcome (meaning access_memory access_register guarded 0))
execute-program_example =
    execute-program access_memory access_register guarded 0 guarded_size guarded_defined
