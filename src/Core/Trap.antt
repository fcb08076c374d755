-- ===== src/Core/Trap.antt =====
-- lib/include/core/trap.hpp: the traps, their codes, and which of them are interrupts.
use simple_riscv_emulator.Common.{ℕ, Bool, leb}

pub data Trap : Type 0 where
  inst_address_misaligned inst_access_fault illegal_instruction breakpoint : Trap
  load_address_misaligned load_access_fault store_address_misaligned store_access_fault : Trap
  env_call_from_u_mode env_call_from_s_mode env_call_from_m_mode : Trap
  inst_page_fault load_page_fault store_page_fault : Trap
  supervisor_software_interrupt machine_software_interrupt : Trap
  supervisor_timer_interrupt machine_timer_interrupt : Trap
  supervisor_external_interrupt machine_external_interrupt counter_overflow_interrupt : Trap

-- `(u32)trap`.
unfoldable pub code : Trap → ℕ
code inst_address_misaligned = 0x0
code inst_access_fault = 0x1
code illegal_instruction = 0x2
code breakpoint = 0x3
code load_address_misaligned = 0x4
code load_access_fault = 0x5
code store_address_misaligned = 0x6
code store_access_fault = 0x7
code env_call_from_u_mode = 0x8
code env_call_from_s_mode = 0x9
code env_call_from_m_mode = 0xb
code inst_page_fault = 0xc
code load_page_fault = 0xd
code store_page_fault = 0xf
code supervisor_software_interrupt = 0x8000_0001
code machine_software_interrupt = 0x8000_0003
code supervisor_timer_interrupt = 0x8000_0005
code machine_timer_interrupt = 0x8000_0007
code supervisor_external_interrupt = 0x8000_0009
code machine_external_interrupt = 0x8000_000b
code counter_overflow_interrupt = 0x8000_000c

unfoldable pub is_interrupt : Trap → Bool
unfolding code
is_interrupt trap = leb 0x8000_0000 (code trap)
