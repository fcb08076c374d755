-- ===== src/EmulatorDebug/Quiet.antt =====
-- main/src/emulator-debug.cpp: `run_steps` and `run_until_trap` while nothing stops them.
use simple_riscv_emulator.Common.{
  ℕ, zero, suc, Bool, true, false, not, ◌&&◌, [], Option, some, if◌then◌else◌, ◌≡◌, inl, inr, refl,
  ap, ◌∙◌, Bool-cases, Option-cases,
}
use simple_riscv_emulator.Core.LoadStore.{get_size}
use simple_riscv_emulator.Core.Cpu.State.{CpuResult, Uninit}
use simple_riscv_emulator.Platform.{Randomness}
use simple_riscv_emulator.Emulator.{Emulator, tick_one_cycle}
use simple_riscv_emulator.GdbStub.StopPoint.{decided}
use simple_riscv_emulator.GdbStub.Response.{no_hit, sigtrap}
use simple_riscv_emulator.EmulatorDebug.{EmulatorDebug, find_breakpoint, find_watchpoint}
use simple_riscv_emulator.EmulatorDebug.RunHandlers.{
  WatchCheck, no_watch, no_size, watch_flags, RunResult, stopped, thrown, is_store, is_load,
  check_watchpoint, check_breakpoint, stop_of, after_tick, cycle, run_steps,
}

-- The access of the cycle, if there is one, has a size.
unfoldable pub has_size : CpuResult → Bool
unfolding get_size
has_size r =
    if not (is_store r.memory_opcode) && not (is_load r.memory_opcode)
    then true
    else elim (get_size r.memory_funct) [ Option.none ↦ false | some size ↦ true ]

-- Cycles of the emulator without a debugger, and whether all of them were run: one that throws, or
-- whose access has no size, is the last.
unfoldable pub ticks : Randomness → ℕ → Emulator → (ℕ → Uninit) → Emulator × Bool
unfolding has_size
ticks random zero e u = (e, true)
ticks random (suc n) e u =
    let (e', o) = tick_one_cycle random e (u n) in
    elim o [
      | Option.none ↦ (e', false)
      | some r ↦ elim (has_size r) [ true ↦ ticks random n e' u | false ↦ (e', false) ]
    ]

-- A debugger without stop points.
abbrev pub without_points : Emulator → EmulatorDebug
without_points e = record { emulator = e; hw_breakpoints = []; watchpoints = [] }

watch_size : Bool → WatchCheck
watch_size true = no_watch
watch_size false = no_size

no_points-watch :
    (e : Emulator) (r : CpuResult) → check_watchpoint (without_points e) r ≡ watch_size (has_size r)
unfolding check_watchpoint has_size watch_flags find_watchpoint watch_size
no_points-watch e r =
    elim (Bool-cases (not (is_store r.memory_opcode) && not (is_load r.memory_opcode))) [
      | inl no_access ↦ rw no_access refl
      | inr some_access ↦ elim (Option-cases (get_size r.memory_funct)) [
        | inl unsized ↦ rw (some_access, unsized) refl
        | inr (size, sized) ↦ rw (some_access, sized) refl
      ]
    ]

-- The end of a run of all cycles, or of fewer.
unfoldable pub end_of_steps : Bool → RunResult
end_of_steps true = stopped (record { signal = sigtrap; hit = no_hit })
end_of_steps false = thrown

module _ (random : Randomness) (rounds : ℕ) where
  abbrev outcome : Option CpuResult → Option RunResult
  outcome Option.none = some thrown
  outcome (some r) = elim (has_size r) [ true ↦ Option.none | false ↦ some thrown ]

  stop_of-watch_size :
      (address : ℕ) (b : Bool)
      → stop_of address (decided false) (watch_size b) false
        ≡ elim b [ true ↦ Option.none | false ↦ some thrown ]
  unfolding stop_of watch_size
  stop_of-watch_size address true = refl
  stop_of-watch_size address false = refl

  no_points-after_tick :
      (e : Emulator) (o : Option CpuResult)
      → after_tick random rounds (without_points e) o false ≡ (without_points e, outcome o)
  unfolding after_tick check_breakpoint find_breakpoint
  no_points-after_tick e Option.none = refl
  no_points-after_tick e (some r) =
      ap (λ o. (without_points e, o))
        (ap (λ w. stop_of r.alu_result (decided false) w false) (no_points-watch e r)
          ∙ stop_of-watch_size r.alu_result (has_size r))

  no_points-cycle :
      (e : Emulator) (u : Uninit)
      → cycle random rounds (without_points e) u false
        ≡ (without_points (tick_one_cycle random e u).0, outcome (tick_one_cycle random e u).1)
  unfolding cycle
  no_points-cycle e u =
      no_points-after_tick (tick_one_cycle random e u).0 (tick_one_cycle random e u).1

  -- What `run_steps` makes of a cycle.
  abbrev steps_behind :
      ℕ → (ℕ → Uninit) → EmulatorDebug × Option RunResult → EmulatorDebug × RunResult
  steps_behind n u (e, o) = elim o [
    | Option.none ↦ run_steps random rounds n e u (λ _. false)
    | some result ↦ (e, result)
  ]

  -- Without stop points and interrupts, the debugger's steps are the emulator's cycles: as many are
  -- run, they leave the emulator in the same state, and the reason to stop is a plain `SIGTRAP`; a
  -- cycle that throws, or whose load or store has no size, ends them with an exception.
  pub run_steps-ticks :
      (n : ℕ) (e : Emulator) (u : ℕ → Uninit)
      → run_steps random rounds n (without_points e) u (λ _. false)
        ≡ (without_points (ticks random n e u).0, end_of_steps (ticks random n e u).1)
  unfolding run_steps ticks end_of_steps
  run_steps-ticks zero e u = refl
  run_steps-ticks (suc n) e u =
      ap (steps_behind n u) (no_points-cycle e (u n))
      ∙ elim (Option-cases (tick_one_cycle random e (u n)).1) [
        | inl threw ↦ rw (ticks, steps_behind, threw) refl
        | inr (r, ended) ↦ elim (Bool-cases (has_size r)) [
          | inl sized ↦
              rw (ticks, steps_behind, ended, outcome, sized)
                (run_steps-ticks n (tick_one_cycle random e (u n)).0 u)
          | inr unsized ↦ rw (ticks, steps_behind, ended, outcome, unsized) refl
        ]
      ]
