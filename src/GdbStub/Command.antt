-- ===== src/GdbStub/Command.antt =====
-- lib/include/gdb-stub/command.hpp: the commands, and what parsing a text gives.
use simple_riscv_emulator.Common.{ℕ, Bool, List, Option, some}
pub mod Hex
pub mod Points
pub mod Supported
pub mod Query
pub mod Parse
pub mod Digits
pub mod RoundTrip
pub mod Registers
pub mod Features
mod Tests

-- `Query_supported::Host_feature_status`.
pub data HostFeatureProperty : Type 0 where
  with_value : HostFeatureProperty
  supported : HostFeatureProperty
  unsupported : HostFeatureProperty
  unknown : HostFeatureProperty

pub record HostFeatureStatus : Type 0 where
  pub property : HostFeatureProperty
  pub value : Option (List ℕ)

-- One constructor for each `struct`, with its members.
pub data Command : Type 0 where
  acknowledge_packet : Bool → Command
  interrupt_packet : Command
  enable_persistant : Command
  ask_halt_reason : Command
  continue : Option ℕ → Command
  read_register : Command
  write_register : List (ℕ × ℕ) → Command
  step_cycles : Option ℕ → Option ℕ → Command
  stop : Command
  restart : Command
  read_memory : ℕ → ℕ → Command
  write_memory : ℕ → List ℕ → Command
  read_single_register : ℕ → Command
  write_single_register : ℕ → ℕ → Command
  step_single_inst : Option ℕ → Command
  query_supported : List (List ℕ × HostFeatureStatus) → Command
  read_feature_xml : List ℕ → ℕ → ℕ → Command
  read_memory_map_xml : ℕ → ℕ → Command
  add_breakpoint : Bool → ℕ → ℕ → Option (List ℕ) → Command
  add_watchpoint : Bool → Bool → ℕ → ℕ → Command
  remove_breakpoint : Bool → ℕ → ℕ → Command
  remove_watchpoint : Bool → Bool → ℕ → ℕ → Command

-- A command, the empty `std::any`, `std::out_of_range` from `substr`, or a text made from a range
-- whose end lies before its start, which C++ leaves undefined and the library answers with
-- `std::length_error`.
pub data Parsed : Type 0 where
  parsed : Command → Parsed
  fail : Parsed
  out_of_range : Parsed
  length_error : Parsed

-- `if (!x) return fail;`.
unfoldable pub or_fail {ℓ} : {A : Type ℓ} → Option A → (A → Parsed) → Parsed
or_fail Option.none k = fail
or_fail (some a) k = k a
