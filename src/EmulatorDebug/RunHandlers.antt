-- ===== src/EmulatorDebug/RunHandlers.antt =====
-- main/src/emulator-debug.cpp: `check_breakpoint`, `check_watchpoint` and the functions that run the
-- emulator. `async_run` runs them beside a thread that waits for an interrupt: whether it has come by
-- the end of a cycle is an argument.
use simple_riscv_emulator.Common.{
  ℕ, zero, suc, Bool, true, false, not, ◌&&◌, Option, some, if◌then◌else◌,
}
use simple_riscv_emulator.Core.Memory.{LoadStoreOpcode}
use simple_riscv_emulator.Core.LoadStore.{get_size}
use simple_riscv_emulator.Core.Cpu.State.{CpuResult, Uninit}
use simple_riscv_emulator.Platform.{Randomness, interconnect}
use simple_riscv_emulator.Emulator.{tick_one_cycle}
use simple_riscv_emulator.GdbStub.AddrRange.{AddressRange}
use simple_riscv_emulator.GdbStub.StopPoint.{
  Watchpoint, Verdict, decided, still_running, no_verdict, is_triggered_by,
}
use simple_riscv_emulator.GdbStub.Response.{
  StopReason, no_hit, watchpoint_hit, breakpoint_hit, sigint, sigtrap,
}
use simple_riscv_emulator.EmulatorDebug.{EmulatorDebug, find_breakpoint, find_watchpoint}

-- What `check_watchpoint` finds: the flags of a hit, read and write, or the exception of `get_size`.
pub data WatchCheck : Type 0 where
  no_watch : WatchCheck
  watch_hit : Bool → Bool → WatchCheck
  no_size : WatchCheck

abbrev pub is_store : LoadStoreOpcode → Bool
is_store LoadStoreOpcode.store = true
is_store LoadStoreOpcode.load = false
is_store LoadStoreOpcode.none = false

abbrev pub is_load : LoadStoreOpcode → Bool
is_load LoadStoreOpcode.load = true
is_load LoadStoreOpcode.store = false
is_load LoadStoreOpcode.none = false

unfoldable pub watch_flags : Bool → Bool → Option (AddressRange × Watchpoint) → WatchCheck
watch_flags read write Option.none = no_watch
watch_flags read write (some (range, w)) =
    if not (write && w.watch_write) && not (read && w.watch_read)
    then no_watch
    else watch_hit (read && w.watch_read) (write && w.watch_write)

unfoldable pub check_watchpoint : EmulatorDebug → CpuResult → WatchCheck
unfolding watch_flags find_watchpoint get_size
check_watchpoint e r =
    let write = is_store r.memory_opcode in
    let read = is_load r.memory_opcode in
    if not write && not read then no_watch else (elim (get_size r.memory_funct) [
      | Option.none ↦ no_size
      | some size ↦
          watch_flags read write
            (find_watchpoint (record { start = r.alu_result; size = size }) e.watchpoints)
    ])

-- How a run ends: it has a reason for the debugger, it throws, a condition has no verdict after the
-- rounds given to it, or the cycles given are over.
pub data RunResult : Type 0 where
  stopped : StopReason → RunResult
  thrown : RunResult
  undecided : RunResult
  out_of_cycles : RunResult

-- What a cycle leads to, by the order of the tests.
unfoldable pub stop_of : ℕ → Verdict → WatchCheck → Bool → Option RunResult
stop_of address still_running watch interrupt = some undecided
stop_of address no_verdict watch interrupt = some undecided
stop_of address (decided is_breakpoint) no_size interrupt = some thrown
stop_of address (decided true) _ interrupt =
    some (stopped (record { signal = sigtrap; hit = breakpoint_hit true }))
stop_of address (decided false) (watch_hit is_read is_write) interrupt =
    some (stopped (record { signal = sigtrap; hit = watchpoint_hit address is_write is_read }))
stop_of address (decided false) no_watch interrupt =
    if interrupt then some (stopped (record { signal = sigint; hit = no_hit })) else Option.none

module _ (random : Randomness) (rounds : ℕ) where
  -- The condition is asked only at the address of a breakpoint.
  unfoldable pub check_breakpoint : EmulatorDebug → EmulatorDebug × Verdict
  unfolding find_breakpoint is_triggered_by
  check_breakpoint e = elim (find_breakpoint e.emulator.cpu.pc e.hw_breakpoints) [
    | Option.none ↦ (e, decided false)
    | some b ↦
        (let (cpu, v) = is_triggered_by (interconnect random) rounds b e.emulator.cpu in
          (record e { emulator = record e.emulator { cpu = cpu } }, v))
  ]

  -- The tests behind a tick.
  unfoldable pub after_tick :
      EmulatorDebug → Option CpuResult → Bool → EmulatorDebug × Option RunResult
  unfolding stop_of check_breakpoint check_watchpoint
  after_tick e Option.none interrupt = (e, some thrown)
  after_tick e (some r) interrupt =
      let (e', v) = check_breakpoint e in
      (e', stop_of r.alu_result v (check_watchpoint e' r) interrupt)

  -- One round of either loop, with what the uninitialised members of the result hold.
  unfoldable pub cycle : EmulatorDebug → Uninit → Bool → EmulatorDebug × Option RunResult
  unfolding after_tick
  cycle e u interrupt =
      let (emulator, o) = tick_one_cycle random e.emulator u in
      after_tick (record e { emulator = emulator }) o interrupt

  -- `run_until_trap`, for a number of cycles; with `n` to go, the members hold `u n`, and `interrupt n`
  -- tells whether an interrupt has come.
  unfoldable pub run_until_trap :
      ℕ → EmulatorDebug → (ℕ → Uninit) → (ℕ → Bool) → EmulatorDebug × RunResult
  unfolding cycle
  run_until_trap zero e u interrupt = (e, out_of_cycles)
  run_until_trap (suc n) e u interrupt =
      let (e', o) = cycle e (u n) (interrupt n) in
      elim o [ Option.none ↦ run_until_trap n e' u interrupt | some result ↦ (e', result) ]

  -- `run_steps`: after the last cycle, the reason is `SIGTRAP`.
  unfoldable pub run_steps :
      ℕ → EmulatorDebug → (ℕ → Uninit) → (ℕ → Bool) → EmulatorDebug × RunResult
  unfolding cycle
  run_steps zero e u interrupt = (e, stopped (record { signal = sigtrap; hit = no_hit }))
  run_steps (suc n) e u interrupt =
      let (e', o) = cycle e (u n) (interrupt n) in
      elim o [ Option.none ↦ run_steps n e' u interrupt | some result ↦ (e', result) ]
