-- ===== src/GdbStub/Expression.antt =====
-- lib/gdb-stub/expression.cpp and lib/include/gdb-stub/expression.hpp: the agent expressions that
-- guard breakpoints, a stack machine on bytes. The functions that read memory and registers come
-- from the caller and may change its state `S` (a read of a device does).
use simple_riscv_emulator.Common.{
  ℕ, ◌+◌, Option, none, some, List, [], ◌∷◌, get_elem?, Expected, ok, unexpected,
}
pub mod Bytecode
pub mod Step
pub mod Run
pub mod Tree
pub mod Compiler
pub mod Meaning
mod Tests

pub data ExecuteError : Type 0 where
  unsupported_bytecode : ExecuteError
  bytecode_out_of_bound : ExecuteError
  stack_out_of_bound : ExecuteError
  division_by_zero : ExecuteError
  memory_access_error : ExecuteError
  register_access_error : ExecuteError

pub record ExecuteResult : Type 0 where
  pub top : ℕ
  pub next_to_top : Option ℕ

-- The variables of `execute`: the stack has its back as the head of the list.
pub record Machine {ℓ} (S : Type ℓ) : Type ℓ where
  pub pc : ℕ
  pub stack : List ℕ
  pub env : S

-- Where a round of the loop leads: to the next round, out of the function, or to an operation that
-- the language leaves undefined.
pub data Progress {ℓ} (S : Type ℓ) : Type ℓ where
  running : Machine S → Progress S
  returned : S → Expected ExecuteResult ExecuteError → Progress S
  undefined : Progress S

-- The macros: each returns from `execute` or goes on with what it read.
module _ {ℓ} {S : Type ℓ} where
  abbrev pub fail : S → ExecuteError → Progress S
  fail env e = returned env (unexpected e)

  -- `POP_STACK`.
  unfoldable pub pop : S → List ℕ → (ℕ → List ℕ → Progress S) → Progress S
  pop env [] k = fail env stack_out_of_bound
  pop env (a ∷ stack) k = k a stack

  unfoldable pub or_fail {κ} :
      {A : Type κ} → S → ExecuteError → Option A → (A → Progress S) → Progress S
  or_fail env e none k = fail env e
  or_fail env e (some a) k = k a

  -- `GET_STACK_AT_INDEX`.
  unfoldable pub get_stack_at_index : S → List ℕ → ℕ → (ℕ → Progress S) → Progress S
  unfolding or_fail
  get_stack_at_index env stack index k = or_fail env stack_out_of_bound (get_elem? stack index) k

  -- `GET_OP_AT_INDEX`.
  unfoldable pub get_op_at_index : S → List ℕ → ℕ → (ℕ → Progress S) → Progress S
  unfolding or_fail
  get_op_at_index env code index k = or_fail env bytecode_out_of_bound (get_elem? code index) k

  -- `GET_MEMORY_AT_ADDR`, and the same for a register.
  unfoldable pub from_access : ExecuteError → S × Option ℕ → (S → ℕ → Progress S) → Progress S
  from_access e (env, none) k = fail env e
  from_access e (env, some value) k = k env value
