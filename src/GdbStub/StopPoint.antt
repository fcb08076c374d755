-- ===== src/GdbStub/StopPoint.antt =====
-- lib/gdb-stub/stop-point.cpp and lib/include/gdb-stub/stop-point.hpp: breakpoints with a condition,
-- and watchpoints.
use simple_riscv_emulator.Common.{
  ℕ, Bool, true, false, not, Option, some, List, ◌==◌, if◌then◌else◌, ok, unexpected,
}
use simple_riscv_emulator.Core.Memory.{MemoryInterface}
use simple_riscv_emulator.Core.Cpu.State.{Cpu}
use simple_riscv_emulator.GdbStub.Accessor.{read, read_register}
use simple_riscv_emulator.GdbStub.AddrRange.{AddressRange}
use simple_riscv_emulator.GdbStub.Expression.{Progress, running, returned, undefined}
use simple_riscv_emulator.GdbStub.Expression.Run.{execute}
pub mod Guard
mod Tests

pub record Watchpoint : Type 0 where
  pub watch_write : Bool
  pub watch_read : Bool
  pub addr_range : AddressRange

pub record HwBreakpoint : Type 0 where
  pub address : ℕ
  pub cond : Option (List ℕ)

-- Whether a breakpoint is hit; a condition may need more rounds than were given, or run into an
-- operation without a meaning.
pub data Verdict : Type 0 where
  decided : Bool → Verdict
  still_running : Verdict
  no_verdict : Verdict

module _ {S : Type 0} (m : MemoryInterface S) where
  -- The two functions that the condition reads with, on the CPU and the memory behind it.
  unfoldable pub access_memory : Cpu S → ℕ → Cpu S × Option ℕ
  unfolding read
  access_memory c address =
      let (s, byte) = read m c.memory address in (record c { memory = s }, byte)

  unfoldable pub access_register : Cpu S → ℕ → Cpu S × Option ℕ
  unfolding read_register
  access_register c reg_num = read_register c reg_num

  unfoldable pub verdict : Cpu S → Progress (Cpu S) → Cpu S × Verdict
  verdict c (running machine) = (machine.env, still_running)
  verdict c (returned c' (ok result)) = (c', decided (not (result.top == 0)))
  verdict c (returned c' (unexpected e)) = (c', decided false)
  verdict c undefined = (c, no_verdict)

  unfoldable pub check_condition : ℕ → Option (List ℕ) → Cpu S → Cpu S × Verdict
  unfolding verdict execute access_memory access_register
  check_condition rounds Option.none c = (c, decided true)
  check_condition rounds (some code) c =
      verdict c (execute access_memory access_register code rounds c)

  -- `Hw_breakpoint::is_triggered_by`.
  unfoldable pub is_triggered_by : ℕ → HwBreakpoint → Cpu S → Cpu S × Verdict
  unfolding check_condition
  is_triggered_by rounds b c =
      if not (c.pc == b.address) then (c, decided false) else check_condition rounds b.cond c
