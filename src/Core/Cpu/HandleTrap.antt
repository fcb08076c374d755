-- ===== src/Core/Cpu/HandleTrap.antt =====
-- lib/core/cpu.cpp: `CPU_module::handle_trap`.
use simple_riscv_emulator.Common.{
  ℕ, ◌+◌, ◌*◌, ◌&&◌, Option, some, ◌==◌, if◌then◌else◌, bit_and, u32, ◌<<<◌,
}
use simple_riscv_emulator.Core.Trap.{
  Trap, inst_address_misaligned, inst_access_fault, inst_page_fault, load_access_fault,
  store_access_fault, load_address_misaligned, store_address_misaligned, load_page_fault,
  store_page_fault, illegal_instruction, code, is_interrupt,
}
use simple_riscv_emulator.Core.Csr.{Csr, Mstatus, machine, mtvec_mode, mtvec_base_upper30}
use simple_riscv_emulator.Core.Cpu.State.{Cpu, CpuResult}

-- `mtval`.
unfoldable pub trap_value : Trap → CpuResult → ℕ
trap_value inst_address_misaligned r = r.alu_result
trap_value inst_access_fault r = r.alu_result
trap_value inst_page_fault r = r.alu_result
trap_value load_access_fault r = r.alu_result
trap_value store_access_fault r = r.alu_result
trap_value load_address_misaligned r = r.alu_result
trap_value store_address_misaligned r = r.alu_result
trap_value load_page_fault r = r.alu_result
trap_value store_page_fault r = r.alu_result
trap_value illegal_instruction r = r.inst
trap_value _ r = 0

-- `mpie = mie; mie = false; mpp = Machine`.
unfoldable pub enter_trap : Mstatus → Mstatus
enter_trap m = record m { mpie = m.mie; mie = 0; mpp = machine }

-- The control registers after a trap at `pc`.
unfoldable pub trap_csr : Csr → ℕ → Trap → CpuResult → Csr
trap_csr c pc trap r = record c {
  mstatus = enter_trap c.mstatus;
  mepc = pc;
  mcause = code trap;
  mtval = trap_value trap r;
}

-- Where the handler starts; mode 1 is `Vectored`.
unfoldable pub trap_vector : Csr → Trap → ℕ
trap_vector c trap =
    if is_interrupt trap && (mtvec_mode c == 1)
    then u32 (u32 (mtvec_base_upper30 c <<< 2) + 4 * bit_and (code trap) 0x7fff_ffff)
    else u32 (mtvec_base_upper30 c <<< 2)

module _ {S : Type 0} where
  unfoldable pub take_trap : Cpu S → CpuResult → Trap → Cpu S
  take_trap c r trap =
      let csr = trap_csr c.csr c.pc trap r in record c { csr = csr; pc = trap_vector csr trap }

  unfoldable pub handle_trap : Cpu S → CpuResult → Cpu S
  handle_trap c r = elim r.trap [ Option.none ↦ c | some trap ↦ take_trap c r trap ]
