-- ===== src/GdbStub/Expression/Run.antt =====
-- lib/gdb-stub/expression.cpp: the loop of `execute`. An expression may jump back for ever, so the
-- loop takes a number of rounds, and stops in the middle when they are used up.
use simple_riscv_emulator.Common.{ℕ, zero, suc, ◌+◌, Option, List, [], ◌≡◌, refl}
use simple_riscv_emulator.GdbStub.Expression.{Machine, Progress, running, returned, undefined}
use simple_riscv_emulator.GdbStub.Expression.Step.{step}
pub mod Leads
pub mod Jumps
pub mod Advance
pub mod Forward

module _ {ℓ} {S : Type ℓ} (access_memory access_register : S → ℕ → S × Option ℕ)
    (code : List ℕ) where
  unfoldable pub run : ℕ → Machine S → Progress S
  unfolding step
  run zero m = running m
  run (suc n) m = elim (step access_memory access_register code m) [
    | running m' ↦ run n m'
    | returned env r ↦ returned env r
    | undefined ↦ undefined
  ]

  unfoldable pub execute : ℕ → S → Progress S
  unfolding run
  execute rounds env = run rounds (record { pc = 0; stack = []; env = env })
