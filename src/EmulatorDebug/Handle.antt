-- ===== src/EmulatorDebug/Handle.antt =====
-- main/src/emulator-debug.cpp: the table of handlers, `handle_special_commands`, and what `run` does
-- with a command that was received. The connection is not modelled.
use simple_riscv_emulator.Common.{ℕ, ◌+◌, Bool, Option, some, List, ◌++◌, length, leb, u32}
use simple_riscv_emulator.GdbStub.{codes, take, drop}
use simple_riscv_emulator.Core.Cpu.State.{Cpu, Uninit}
use simple_riscv_emulator.Platform.{PlatformMemory, Randomness, interconnect}
use simple_riscv_emulator.Device.BlockMemory.{reset_content}
use simple_riscv_emulator.GdbStub.Command.{
  Command, acknowledge_packet, interrupt_packet, enable_persistant, ask_halt_reason, continue,
  read_register, write_register, step_cycles, stop, restart, read_memory, write_memory,
  read_single_register, write_single_register, step_single_inst, query_supported, read_feature_xml,
  read_memory_map_xml, add_breakpoint, add_watchpoint, remove_breakpoint, remove_watchpoint,
}
use simple_riscv_emulator.GdbStub.Response.{
  Response, stop_reason, qxfer_response, qsupported_response, error_message, no_hit, sigint,
}
use simple_riscv_emulator.EmulatorDebug.{EmulatorDebug}
use simple_riscv_emulator.EmulatorDebug.MemoryHandlers.{handle_mem_read, handle_mem_write}
use simple_riscv_emulator.EmulatorDebug.RegisterHandlers.{
  handle_reg_read, handle_reg_write, handle_single_reg_read, handle_single_reg_write,
}
use simple_riscv_emulator.EmulatorDebug.PointHandlers.{
  handle_add_breakpoint, handle_remove_breakpoint, handle_add_watchpoint, handle_remove_watchpoint,
}
use simple_riscv_emulator.EmulatorDebug.RunHandlers.{
  RunResult, stopped, thrown, undecided, out_of_cycles, run_until_trap, run_steps,
}

-- What `run` does next: it sends a response, goes on without one, returns, closes the connection and
-- returns, or is still in the run that the command asked for.
pub data Reaction : Type 0 where
  responds : Response → Reaction
  continues : Reaction
  stops : Reaction
  closes : Reaction
  unfinished : RunResult → Reaction

-- The end of `async_run`.
unfoldable pub react : EmulatorDebug × RunResult → EmulatorDebug × Reaction
react (e, stopped reason) = (e, responds (stop_reason reason))
react (e, thrown) = (e, unfinished thrown)
react (e, undecided) = (e, unfinished undecided)
react (e, out_of_cycles) = (e, unfinished out_of_cycles)

abbrev with_cpu : EmulatorDebug → Cpu PlatformMemory × Response → EmulatorDebug × Reaction
with_cpu e (cpu, r) = (record e { emulator = record e.emulator { cpu = cpu } }, responds r)

abbrev with_memory : EmulatorDebug → PlatformMemory × Response → EmulatorDebug × Reaction
with_memory e (memory, r) = (
  record e { emulator = record e.emulator { cpu = record e.emulator.cpu { memory = memory } } },
  responds r,
)

abbrev with_points : EmulatorDebug × Response → EmulatorDebug × Reaction
with_points (e, r) = (e, responds r)

-- `if (cmd.address.has_value()) platform->cpu->pc = *cmd.address;`.
unfoldable pub set_pc : EmulatorDebug → Option ℕ → EmulatorDebug
set_pc e Option.none = e
set_pc e (some address) = record e {
  emulator = record e.emulator { cpu = record e.emulator.cpu { pc = address } };
}

unfoldable pub value_or : Option ℕ → ℕ → ℕ
value_or Option.none d = d
value_or (some n) d = n

-- A part of a file, and whether it is the last one.
unfoldable pub slice_response : ℕ → List ℕ → ℕ → ℕ → Response
slice_response file_end file offset size =
    qxfer_response (leb (length file) file_end) (take size (drop offset file))

-- The files that are built into the program are arguments; so are the rounds for a condition, the
-- cycles for a run, and what a run finds in uninitialised members and as interrupts.
module _ (random : Randomness) (xml_file : List ℕ → Option (List ℕ)) (memory_map_xml : List ℕ)
    (rounds cycles : ℕ) (u : ℕ → Uninit) (interrupt : ℕ → Bool) where
  unfoldable pub handle_qxfer_feature : List ℕ → ℕ → ℕ → Response
  unfolding slice_response
  handle_qxfer_feature annex offset size = elim (xml_file annex) [
    | Option.none ↦ error_message (codes "Unknown annex: " ++ annex)
    | some file ↦ slice_response (offset + size) file offset size
  ]

  -- The sum of offset and length is a `u32`.
  unfoldable pub handle_qxfer_memory_map : ℕ → ℕ → Response
  unfolding slice_response
  handle_qxfer_memory_map offset size =
      slice_response (u32 (offset + size)) memory_map_xml offset size

  unfoldable pub handle : EmulatorDebug → Command → EmulatorDebug × Reaction
  unfolding react set_pc handle_mem_read handle_mem_write handle_reg_read handle_reg_write
      handle_single_reg_read handle_single_reg_write handle_add_breakpoint handle_remove_breakpoint
      handle_add_watchpoint handle_remove_watchpoint handle_qxfer_feature handle_qxfer_memory_map
      value_or
  handle e (query_supported features) = (e, responds qsupported_response)
  handle e (read_feature_xml annex offset size) =
      (e, responds (handle_qxfer_feature annex offset size))
  handle e (read_memory_map_xml offset size) = (e, responds (handle_qxfer_memory_map offset size))
  handle e ask_halt_reason = (e, responds (stop_reason (record { signal = sigint; hit = no_hit })))
  handle e (read_memory address size) =
      with_memory e (handle_mem_read (interconnect random) e.emulator.cpu.memory address size)
  handle e (write_memory address bytes) =
      with_memory e (handle_mem_write (interconnect random) e.emulator.cpu.memory address bytes)
  handle e read_register = with_cpu e (handle_reg_read e.emulator.cpu)
  handle e (write_register values) = with_cpu e (handle_reg_write e.emulator.cpu values)
  handle e (read_single_register regno) = with_cpu e (handle_single_reg_read e.emulator.cpu regno)
  handle e (write_single_register regno value) =
      with_cpu e (handle_single_reg_write e.emulator.cpu regno value)
  handle e (continue address) =
      react (run_until_trap random rounds cycles (set_pc e address) u interrupt)
  handle e (step_single_inst address) =
      react (run_steps random rounds 1 (set_pc e address) u interrupt)
  handle e (step_cycles address count) =
      react (run_steps random rounds (value_or count 1) (set_pc e address) u interrupt)
  handle e (add_breakpoint is_hardware address size cond) =
      with_points (handle_add_breakpoint e is_hardware address size cond)
  handle e (remove_breakpoint is_hardware address size) =
      with_points (handle_remove_breakpoint e is_hardware address)
  handle e (add_watchpoint watch_write watch_read address size) =
      with_points (handle_add_watchpoint e watch_write watch_read address size)
  handle e (remove_watchpoint watch_write watch_read address size) =
      with_points (handle_remove_watchpoint e address size)
  handle e (acknowledge_packet success) = (e, continues)
  handle e restart =
      let memory = e.emulator.cpu.memory in
      (
        record e {
          emulator = record e.emulator {
            cpu = record e.emulator.cpu {
              memory = record memory { ram = reset_content memory.ram };
            };
          };
        },
        continues,
      )
  handle e stop = (e, stops)
  handle e interrupt_packet = (e, closes)
  handle e enable_persistant = (e, closes)
