-- ===== src/Emulator/Capture.antt =====
-- Which traps the capture modes stop at, and how a run ends.
use simple_riscv_emulator.Common.{
  Option, none, true, sym, Bool-cases, ap, subst, ℕ, zero, suc, ◌≡◌, ◌≢◌, ◌∙◌, refl, arith, some,
  Option-cases, inl, inr, if◌then◌else◌,
}
use simple_riscv_emulator.Core.Trap.{Trap, code, is_interrupt}
use simple_riscv_emulator.Core.Cpu.State.{Uninit, CpuResult}
use simple_riscv_emulator.Platform.{Randomness}
use simple_riscv_emulator.Emulator.{
  TrapCaptureMode, Emulator, is_captured, is_infinite_loop, tick_one_cycle, run, captured,
  infinite_loop, RunEnd,
}

is_captured-is_interrupt :
    (t : Trap) → is_captured TrapCaptureMode.exception_only (some t) ≡ is_interrupt t
unfolding is_captured is_interrupt code
is_captured-is_interrupt t = ground arith

module _ (random : Randomness) where
  -- The modes are not changed by a cycle.
  tick_one_cycle-mode :
      (e : Emulator) (u : Uninit)
      → ((tick_one_cycle random e u).0.trap_capture_mode ≡ e.trap_capture_mode)
        × ((tick_one_cycle random e u).0.stop_at_infinite_loop ≡ e.stop_at_infinite_loop)
  unfolding tick_one_cycle
  tick_one_cycle-mode e u = ground arith

  run-cycle :
      (n : ℕ) (e : Emulator) (u : ℕ → Uninit) (r : CpuResult)
      → (tick_one_cycle random e (u n)).1 ≡ some r
      → run random (suc n) e u ≡ (
          if is_captured e.trap_capture_mode r.trap
          then ((tick_one_cycle random e (u n)).0, captured)
          else if is_infinite_loop e r
          then ((tick_one_cycle random e (u n)).0, infinite_loop)
          else run random n (tick_one_cycle random e (u n)).0 u)
  unfolding run
  run-cycle n e u r h = rw (run, h) refl

  -- A run in the mode `No_capture` is never ended by a trap.
  pub run-no_capture :
      (n : ℕ) (e : Emulator) (u : ℕ → Uninit)
      → e.trap_capture_mode ≡ TrapCaptureMode.no_capture
      → (run random n e u).1 ≢ captured
  unfolding run is_captured
  run-no_capture zero e u mode h = ground (arith, h)
  run-no_capture (suc n) e u mode h = elim (Option-cases (tick_one_cycle random e (u n)).1) [
    | inl threw ↦ ground (arith, h, threw)
    | inr (r, returned) ↦
        let same = (tick_one_cycle-mode e (u n)).0 in
        let rest = run-no_capture n (tick_one_cycle random e (u n)).0 u (same ∙ mode) in
        let whole = run-cycle n e u r returned in ground (arith, h, whole, mode, rest)
  ]

  -- The last cycle of a run: the state before it, and the trap that it ends with.
  pub record IsLastCycle (e : Emulator) (u : ℕ → Uninit) (t : Trap) : Type 0 where
    pub before : Emulator
    pub cycles_left : ℕ
    pub result : CpuResult
    pub returned : (tick_one_cycle random before (u cycles_left)).1 ≡ some result
    pub state : (tick_one_cycle random before (u cycles_left)).0 ≡ e
    pub trap : result.trap ≡ some t

  captured_trap :
      (o : Option Trap)
      → is_captured TrapCaptureMode.exception_only o ≡ true
      → (t : Trap) × (o ≡ some t) × (is_interrupt t ≡ true)
  unfolding is_captured
  captured_trap none h = absurd (ground (arith, h))
  captured_trap (some t) h = (t, refl, sym (is_captured-is_interrupt t) ∙ h)

  -- A run in the mode `Exception_only` that ends as captured ends behind a cycle whose trap is an
  -- interrupt: no exception stops it, where the comment in option.hpp says that only exceptions do.
  pub run-exception_only :
      (n : ℕ) (e : Emulator) (u : ℕ → Uninit)
      → e.trap_capture_mode ≡ TrapCaptureMode.exception_only
      → (run random n e u).1 ≡ captured
      → (t : Trap) × IsLastCycle (run random n e u).0 u t × (is_interrupt t ≡ true)
  unfolding run
  run-exception_only zero e u mode h = absurd (ground (arith, h))
  run-exception_only (suc n) e u mode h = elim (Option-cases (tick_one_cycle random e (u n)).1) [
    | inl threw ↦ absurd (ground (arith, h, threw))
    | inr (r, returned) ↦
        let e' = (tick_one_cycle random e (u n)).0 in
        let whole = run-cycle n e u r returned in
        elim (Bool-cases (is_captured e.trap_capture_mode r.trap)) [
          | inl hit ↦
              let stop : run random (suc n) e u ≡ (e', captured) = rw (whole, hit) refl in
              let (t, trap, interrupt) =
                captured_trap r.trap (ap (λ m. is_captured m r.trap) (sym mode) ∙ hit) in
              (
                t,
                record {
                  before = e;
                  cycles_left = n;
                  result = r;
                  returned = returned;
                  state = ap (λ p. p.0) (sym stop);
                  trap = trap;
                },
                interrupt,
              )
          | inr missed ↦ elim (Bool-cases (is_infinite_loop e r)) [
            | inl endless ↦ absurd (ground (arith, h, whole, missed, endless))
            | inr goes ↦
                let rest : run random (suc n) e u ≡ run random n e' u =
                  rw (whole, missed, goes) refl in
                subst
                  (λ (p : Emulator × RunEnd).
                    (t : Trap) × IsLastCycle p.0 u t × (is_interrupt t ≡ true))
                  (sym rest)
                  (run-exception_only n e' u ((tick_one_cycle-mode e (u n)).0 ∙ mode)
                    (ap (λ p. p.1) (sym rest) ∙ h))
          ]
        ]
  ]
