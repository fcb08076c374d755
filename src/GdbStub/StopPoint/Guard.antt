-- ===== src/GdbStub/StopPoint/Guard.antt =====
-- lib/gdb-stub/stop-point.cpp: a breakpoint whose condition is a compiled expression.
use simple_riscv_emulator.Common.{
  ℕ, ◌+◌, ◌^◌, ◌<◌, Bool, true, false, not, some, ◌==◌, if◌then◌else◌, ◌≡◌, refl, ap, ◌∙◌,
}
use simple_riscv_emulator.Core.Memory.{MemoryInterface}
use simple_riscv_emulator.Core.Cpu.State.{Cpu}
use simple_riscv_emulator.GdbStub.Expression.Tree.{Expr, Value, value, failure, no_meaning, eval}
use simple_riscv_emulator.GdbStub.Expression.Compiler.{size, program}
use simple_riscv_emulator.GdbStub.Expression.Compiler.Program.{outcome, execute-eval}
use simple_riscv_emulator.GdbStub.StopPoint.{
  Verdict, decided, no_verdict, access_memory, access_register, verdict, check_condition,
  is_triggered_by,
}

-- The verdict for the value of a condition.
unfoldable pub verdict_of {ℓ} : {S : Type ℓ} → S → Value S → S × Verdict
verdict_of c (value c' v) = (c', decided (not (v == 0)))
verdict_of c (failure c' e) = (c', decided false)
verdict_of c no_meaning = (c, no_verdict)

at_address {ℓ} :
    {A : Type ℓ} (b : Bool) (x y z : A) → x ≡ y → (if not b then z else x) ≡ (if b then y else z)
at_address true x y z e = e
at_address false x y z e = refl

module _ {S : Type 0} (m : MemoryInterface S) where
  verdict-outcome : (c : Cpu S) (v : Value (Cpu S)) → verdict m c (outcome v) ≡ verdict_of c v
  unfolding verdict outcome verdict_of
  verdict-outcome c (value c' v) = refl
  verdict-outcome c (failure c' e) = refl
  verdict-outcome c no_meaning = refl

  -- With some number of rounds, or any more, a breakpoint whose condition is the program of an
  -- expression of less than 2 ^ 16 bytes is hit exactly if the pc is at its address and the
  -- expression, as the code evaluates it on the CPU and its memory, has a value other than zero. A
  -- failed access is no hit, and neither is a dividend of zero, which the code takes for a division
  -- by zero; a divisor of zero, or a quotient that does not fit, is undefined in C++ and gives no
  -- verdict. At another pc nothing is read.
  pub is_triggered_by-program :
      (address : ℕ) (e : Expr) (c : Cpu S)
      → size e < 2 ^ 16
      → (n : ℕ) × ((rounds : ℕ)
          → is_triggered_by m (n + rounds) (record { address = address; cond = some (program e) }) c
            ≡ (if c.pc == address
                then verdict_of c (eval (access_memory m) (access_register m) e c)
                else (c, decided false)))
  unfolding is_triggered_by check_condition
  is_triggered_by-program address e c h =
      let (n, runs) = execute-eval (access_memory m) (access_register m) e c h in
      (
        n,
        λ rounds.
            at_address (c.pc == address) _ _ (c, decided false)
              (ap (verdict m c) (runs rounds)
                ∙ verdict-outcome c (eval (access_memory m) (access_register m) e c)),
      )
