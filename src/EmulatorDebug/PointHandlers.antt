-- ===== src/EmulatorDebug/PointHandlers.antt =====
-- main/src/emulator-debug.cpp: the handlers that add and remove breakpoints and watchpoints.
use simple_riscv_emulator.Common.{
  ℕ, Bool, true, false, not, ◌&&◌, List, Option, some, ◌==◌, if◌then◌else◌,
}
use simple_riscv_emulator.GdbStub.{codes}
use simple_riscv_emulator.GdbStub.AddrRange.{AddressRange}
use simple_riscv_emulator.GdbStub.Response.{
  Response, ok_response, unsupported_command, error_message,
}
use simple_riscv_emulator.EmulatorDebug.{
  EmulatorDebug, find_breakpoint, emplace_breakpoint, erase_breakpoint, find_watchpoint,
  emplace_watchpoint, erase_watchpoint,
}

abbrev pub is_some {ℓ} : {A : Type ℓ} → Option A → Bool
is_some Option.none = false
is_some (some a) = true

unfoldable pub handle_add_breakpoint :
    EmulatorDebug → Bool → ℕ → ℕ → Option (List ℕ) → EmulatorDebug × Response
unfolding emplace_breakpoint
handle_add_breakpoint e is_hardware address size cond =
    if not is_hardware
    then (e, unsupported_command)
    else if not (size == 4)
    then (e, error_message (codes "Only 4-byte breakpoints are supported"))
    else (
      record e {
        hw_breakpoints =
            emplace_breakpoint address (record { address = address; cond = cond }) e.hw_breakpoints;
      },
      ok_response,
    )

unfoldable pub handle_remove_breakpoint : EmulatorDebug → Bool → ℕ → EmulatorDebug × Response
unfolding find_breakpoint erase_breakpoint
handle_remove_breakpoint e is_hardware address =
    if not is_hardware
    then (e, unsupported_command)
    else if not (is_some (find_breakpoint address e.hw_breakpoints))
    then (e, error_message (codes "No such breakpoint"))
    else (record e { hw_breakpoints = erase_breakpoint address e.hw_breakpoints }, ok_response)

unfoldable pub handle_add_watchpoint :
    EmulatorDebug → Bool → Bool → ℕ → ℕ → EmulatorDebug × Response
unfolding emplace_watchpoint
handle_add_watchpoint e watch_write watch_read address size =
    if size == 0
    then (e, error_message (codes "Watchpoint length must be greater than 0"))
    else if not watch_read && not watch_write
    then (e, error_message (codes "Watchpoint must watch read or write"))
    else (let range : AddressRange = record { start = address; size = size } in
        (
          record e {
            watchpoints =
                emplace_watchpoint range
                  (record {
                    watch_write = watch_write;
                    watch_read = watch_read;
                    addr_range = range;
                  })
                  e.watchpoints;
          },
          ok_response,
        ))

unfoldable pub handle_remove_watchpoint : EmulatorDebug → ℕ → ℕ → EmulatorDebug × Response
unfolding find_watchpoint erase_watchpoint
handle_remove_watchpoint e address size =
    let range : AddressRange = record { start = address; size = size } in
    if not (is_some (find_watchpoint range e.watchpoints))
    then (e, error_message (codes "No such watchpoint"))
    else (record e { watchpoints = erase_watchpoint range e.watchpoints }, ok_response)
