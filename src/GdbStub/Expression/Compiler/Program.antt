-- ===== src/GdbStub/Expression/Compiler/Program.antt =====
-- lib/gdb-stub/expression.cpp: `execute` on the whole sequence for an expression.
use simple_riscv_emulator.Common.{
  ℕ, ◌+◌, ◌^◌, ◌<◌, Option, some, none, List, [], ◌∷◌, length, get_elem?, ok, unexpected, ◌≡◌, ap,
  arith, subst,
}
use simple_riscv_emulator.GdbStub.Expression.{Machine, Progress, returned, undefined, pop}
use simple_riscv_emulator.GdbStub.Expression.Bytecode.{to_u8, end}
use simple_riscv_emulator.GdbStub.Expression.Step.{
  step, arithmetic, memory_operation, stack_operation, control, finish,
}
use simple_riscv_emulator.GdbStub.Expression.Run.{execute}
use simple_riscv_emulator.GdbStub.Expression.Tree.{Value, value, failure, no_meaning, eval, Expr}
use simple_riscv_emulator.GdbStub.Expression.Compiler.{size, compile, program, length-compile}
use simple_riscv_emulator.GdbStub.Expression.Compiler.Reaches.{
  At-append, At-self, Reaches, after, Reaches_then, Reaches_end, step_at,
}
use simple_riscv_emulator.GdbStub.Expression.Compiler.Correct.{compile-Computes}

-- What `execute` is to return for a value, or for the lack of one.
unfoldable pub outcome {ℓ} : {S : Type ℓ} → Value S → Progress S
outcome (value env v) = returned env (ok (record { top = v; next_to_top = none }))
outcome (failure env e) = returned env (unexpected e)
outcome no_meaning = undefined

module _ {ℓ} {S : Type ℓ} (access_memory access_register : S → ℕ → S × Option ℕ) where
  end_step :
      (code : List ℕ) (pc v : ℕ) (env : S)
      → get_elem? code pc ≡ some (to_u8 end)
      → step access_memory access_register code (record { pc = pc; stack = v ∷ []; env = env })
        ≡ outcome (value env v)
  unfolding arithmetic memory_operation stack_operation control finish pop outcome
  end_step code pc v env e =
      step_at access_memory access_register code (record { pc = pc; stack = v ∷ []; env = env }) end
        e

  Reaches-outcome :
      (code : List ℕ) (m : Machine S) (pc : ℕ) (v : Value S)
      → get_elem? code pc ≡ some (to_u8 end)
      → Reaches access_memory access_register code m
          (after access_memory access_register code pc [] v)
      → Reaches access_memory access_register code m (λ k. outcome v)
  unfolding outcome
  Reaches-outcome code m pc (value env v) e r =
      Reaches_then access_memory access_register code m
        (record { pc = pc; stack = v ∷ []; env = env }) _ r
        (Reaches_end access_memory access_register code _ env _ (end_step code pc v env e))
  Reaches-outcome code m pc (failure env err) e r = r
  Reaches-outcome code m pc no_meaning e r = r

  -- With some number of rounds, or any more, `execute` on the program of an expression ends as `eval`
  -- says: with a value, with an error, or in a division that C++ leaves undefined.
  pub execute-eval :
      (e : Expr) (env : S)
      → size e < 2 ^ 16
      → (n : ℕ) × ((rounds : ℕ)
          → execute access_memory access_register (program e) (n + rounds) env
            ≡ outcome (eval access_memory access_register e env))
  unfolding execute program
  execute-eval e env l =
      let (bytes, last) =
        At-append (program e) 0 (compile 0 e) (to_u8 end ∷ []) (At-self (program e)) in
      let ends : 0 + length (compile 0 e) ≡ 0 + size e = ap (λ n. 0 + n) (length-compile 0 e) in
      Reaches-outcome (program e) _ (0 + size e) _
        (subst (λ n. get_elem? (program e) n ≡ some (to_u8 end)) ends last.0)
        (compile-Computes access_memory access_register (program e) e 0 bytes (omega arith) [] env)
