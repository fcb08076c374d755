-- ===== src/Emulator.antt =====
-- main/src/emulator.cpp and main/include/emulator.hpp: `Emulator`, one cycle and the loop.
pub mod Capture
mod Tests
use simple_riscv_emulator.Common.{
  ℕ, zero, suc, ◌+◌, Bool, true, false, not, ◌&&◌, Option, some, ◌==◌, if◌then◌else◌, u64,
}
use simple_riscv_emulator.Core.Trap.{Trap, code, is_interrupt, env_call_from_m_mode}
use simple_riscv_emulator.Core.Cpu.State.{Cpu, CpuResult, Uninit}
use simple_riscv_emulator.Core.Cpu.{step}
use simple_riscv_emulator.Device.Clock as ClockDevice
use simple_riscv_emulator.Platform.{PlatformMemory, Randomness, interconnect}

-- `Options::Trap_capture_mode`.
pub data TrapCaptureMode : Type 0 where
  no_capture exception_only all : TrapCaptureMode

-- `Emulator`; the platform is the CPU with the memory in it.
pub record Emulator : Type 0 where
  pub cpu : Cpu PlatformMemory
  pub inst_executed : ℕ
  pub trap_capture_mode : TrapCaptureMode
  pub stop_at_infinite_loop : Bool

-- Whether `run` returns for the trap.
unfoldable pub is_captured : TrapCaptureMode → Option Trap → Bool
is_captured TrapCaptureMode.no_capture trap = false
is_captured TrapCaptureMode.exception_only Option.none = false
is_captured TrapCaptureMode.exception_only (some trap) =
    is_interrupt trap && not (code trap == code env_call_from_m_mode)
is_captured TrapCaptureMode.all Option.none = false
is_captured TrapCaptureMode.all (some trap) = true

abbrev is_none : Option Trap → Bool
is_none Option.none = true
is_none (some trap) = false

-- Whether `run` returns for a jump to the same instruction.
unfoldable pub is_infinite_loop : Emulator → CpuResult → Bool
is_infinite_loop e r =
    e.stop_at_infinite_loop && is_none r.trap && (r.pc == r.alu_result) && r.branch_result

-- `platform->memory->clock_periph->tick(platform->cpu->csr.mip)`.
unfoldable pub tick_clock : Cpu PlatformMemory → Cpu PlatformMemory
tick_clock c =
    let (clock, mip) = ClockDevice.tick c.memory.clock_periph c.csr.mip in
    record c { memory = record c.memory { clock_periph = clock }; csr = record c.csr { mip = mip } }

-- How the loop ends: it returns, it throws `std::logic_error`, or the cycles given are over.
pub data RunEnd : Type 0 where
  captured infinite_loop thrown out_of_cycles : RunEnd

module _ (random : Randomness) where
  -- `tick_one_cycle`, with what the uninitialised members of the result hold.
  unfoldable pub tick_one_cycle : Emulator → Uninit → Emulator × Option CpuResult
  tick_one_cycle e u =
      let (cpu, o) = step (interconnect random) e.cpu u in
      elim o [
        | Option.none ↦ (record e { cpu = cpu }, Option.none)
        | some r ↦
            (record e { cpu = tick_clock cpu; inst_executed = u64 (e.inst_executed + 1) }, some r)
      ]

  -- `run`, for a number of cycles; `u n` is what the uninitialised members hold with `n` to go.
  unfoldable pub run : ℕ → Emulator → (ℕ → Uninit) → Emulator × RunEnd
  run zero e u = (e, out_of_cycles)
  run (suc n) e u =
      let (e', o) = tick_one_cycle e (u n) in
      elim o [
        | Option.none ↦ (e', thrown)
        | some r ↦
            (let rest = run n e' u in
              if is_captured e.trap_capture_mode r.trap
              then (e', captured)
              else if is_infinite_loop e r
              then (e', infinite_loop)
              else rest)
      ]
