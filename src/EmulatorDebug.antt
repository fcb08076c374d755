-- ===== src/EmulatorDebug.antt =====
-- main/src/emulator-debug.cpp and main/include/emulator-debug.hpp: `Emulator_debug`, its state, and
-- the maps of its stop points. The handlers of commands are in the children.
use simple_riscv_emulator.Common.{
  ℕ, Bool, true, false, not, List, [], ◌∷◌, Option, some, ◌==◌, if◌then◌else◌,
}
use simple_riscv_emulator.Emulator.{Emulator}
use simple_riscv_emulator.GdbStub.AddrRange.{AddressRange, range_lt}
use simple_riscv_emulator.GdbStub.StopPoint.{HwBreakpoint, Watchpoint}
use simple_riscv_emulator.GdbStub.Response.{Response}
pub mod MemoryHandlers
pub mod RegisterHandlers
pub mod PointHandlers
pub mod RunHandlers
pub mod Handle
pub mod Unaligned
pub mod Points
pub mod Quiet
mod Tests

-- `Emulator_debug`, without its connection.
pub record EmulatorDebug : Type 0 where
  pub emulator : Emulator
  pub hw_breakpoints : List (ℕ × HwBreakpoint)
  pub watchpoints : List (AddressRange × Watchpoint)

-- `std::map<u32, Hw_breakpoint>`.
unfoldable pub find_breakpoint : ℕ → List (ℕ × HwBreakpoint) → Option HwBreakpoint
find_breakpoint key [] = Option.none
find_breakpoint key ((k, b) ∷ m) = if key == k then some b else find_breakpoint key m

-- `emplace` leaves an element that is there as it is.
unfoldable pub emplace_breakpoint :
    ℕ → HwBreakpoint → List (ℕ × HwBreakpoint) → List (ℕ × HwBreakpoint)
emplace_breakpoint key b [] = (key, b) ∷ []
emplace_breakpoint key b ((k, old) ∷ m) =
    if key == k then (k, old) ∷ m else (k, old) ∷ emplace_breakpoint key b m

unfoldable pub erase_breakpoint : ℕ → List (ℕ × HwBreakpoint) → List (ℕ × HwBreakpoint)
erase_breakpoint key [] = []
erase_breakpoint key ((k, b) ∷ m) =
    let rest = erase_breakpoint key m in if key == k then m else (k, b) ∷ rest

-- `std::map<Address_range, Watchpoint>`, its elements in order: `find` takes the first that is not
-- below the key, and has found it if the key is not below it either. The search from the front finds
-- what a search in the tree finds if the order is strict and weak on the keys; ranges that wrap
-- around or overlap can break that, and then the tree may answer otherwise.
unfoldable pub find_watchpoint :
    AddressRange → List (AddressRange × Watchpoint) → Option (AddressRange × Watchpoint)
unfolding range_lt
find_watchpoint key [] = Option.none
find_watchpoint key ((k, w) ∷ m) =
    if range_lt k key
    then find_watchpoint key m
    else if range_lt key k
    then Option.none
    else some (k, w)

unfoldable pub emplace_watchpoint :
    AddressRange → Watchpoint → List (AddressRange × Watchpoint) → List (AddressRange × Watchpoint)
unfolding range_lt
emplace_watchpoint key w [] = (key, w) ∷ []
emplace_watchpoint key w ((k, old) ∷ m) =
    let later = emplace_watchpoint key w m in
    if range_lt k key
    then (k, old) ∷ later
    else if range_lt key k
    then (key, w) ∷ (k, old) ∷ m
    else (k, old) ∷ m

-- `erase` of what `find` found.
unfoldable pub erase_watchpoint :
    AddressRange → List (AddressRange × Watchpoint) → List (AddressRange × Watchpoint)
unfolding range_lt
erase_watchpoint key [] = []
erase_watchpoint key ((k, w) ∷ m) =
    let later = erase_watchpoint key m in
    if range_lt k key then (k, w) ∷ later else if range_lt key k then (k, w) ∷ m else m
