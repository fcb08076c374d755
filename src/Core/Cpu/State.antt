-- ===== src/Core/Cpu/State.antt =====
-- lib/include/core/cpu.hpp: the state of `CPU_module` and the result of an execution.
use simple_riscv_emulator.Common.{ℕ, Bool, false, Option}
use simple_riscv_emulator.Core.Trap.{Trap}
use simple_riscv_emulator.Core.Csr.{Csr, init as init_csr}
use simple_riscv_emulator.Core.RegisterFile.{RegisterFile}
use simple_riscv_emulator.Core.RegisterFile
use simple_riscv_emulator.Core.InstFetch.{Cache}
use simple_riscv_emulator.Core.InstFetch
use simple_riscv_emulator.Core.Decode.Result.{DecodeResult, no_result}

-- `CPU_module`, with the memory behind `interface` as a part of the state.
pub record Cpu (S : Type 0) : Type 0 where
  pub pc : ℕ
  pub waiting_for_interrupt : Bool
  pub inst_fetch : Cache
  pub registers : RegisterFile
  pub csr : Csr
  pub memory : S

-- The constructor.
unfoldable pub create : {S : Type 0} → ℕ → S → Cpu S
create init_pc memory = record {
  pc = init_pc;
  waiting_for_interrupt = false;
  inst_fetch = InstFetch.init;
  registers = RegisterFile.init;
  csr = init_csr;
  memory = memory;
}

-- The members of `CPU_module::Result` that have no initializer, as they are found.
pub record Uninit : Type 0 where
  pub alu_result : ℕ
  pub branch_result : Bool
  pub csr_result : ℕ
  pub memory_load_value : ℕ
  pub writeback_value : ℕ

-- `CPU_module::Result`, which extends the decoder's.
pub record CpuResult : Type 0 where
  pub decoded : DecodeResult
  pub open decoded use *
  pub pc : ℕ
  pub inst : ℕ
  pub trap : Option Trap
  pub alu_result : ℕ
  pub branch_result : Bool
  pub csr_result : ℕ
  pub memory_load_value : ℕ
  pub writeback_value : ℕ

-- `CPU_module::Result result;`.
unfoldable pub new_result : Uninit → CpuResult
new_result u = record {
  decoded = no_result;
  pc = 0;
  inst = 0;
  trap = Option.none;
  alu_result = u.alu_result;
  branch_result = u.branch_result;
  csr_result = u.csr_result;
  memory_load_value = u.memory_load_value;
  writeback_value = u.writeback_value;
}
