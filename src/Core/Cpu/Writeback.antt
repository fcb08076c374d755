-- ===== src/Core/Cpu/Writeback.antt =====
-- The write of the register file and the next pc keep the invariant of the CPU.
use simple_riscv_emulator.Common.{ℕ, ◌^◌, ◌<◌, ◌≡◌, arith, ◌==◌, inl, inr, Bool-cases}
use simple_riscv_emulator.Core.RegisterFile.{set_register}
use simple_riscv_emulator.Core.RegisterFile.Laws.{set_register-IsValid}
use simple_riscv_emulator.Core.Csr.{Csr, Mstatus, force_legal}
use simple_riscv_emulator.Core.Csr.Valid
use simple_riscv_emulator.Core.Csr.Valid.{IsLegal, access-IsValid, tick-IsValid}
use simple_riscv_emulator.Core.Decode.Result.{RegisterSource}
use simple_riscv_emulator.Core.Cpu.State.{Cpu, CpuResult}
use simple_riscv_emulator.Core.Cpu.Valid.{IsValid}
use simple_riscv_emulator.Core.Cpu.{writeback_value, leave_trap, next_pc, writeback}

-- mie and mpie may be set in a legal mstatus.
interrupts-legal :
    (m : Mstatus) (a b : ℕ)
    → force_legal m ≡ m
    → force_legal (record m { mie = a; mpie = b }) ≡ record m { mie = a; mpie = b }
unfolding force_legal
interrupts-legal m a b e = λ k. record (e k) { mie = a; mpie = b }

leave_trap-IsValid : (c : Csr) → Valid.IsValid c → Valid.IsValid (leave_trap c)
unfolding leave_trap
leave_trap-IsValid c h =
    let legal : IsLegal (record c.mstatus { mie = c.mstatus.mpie; mpie = 0 }) = record {
      legal = interrupts-legal c.mstatus c.mstatus.mpie 0 h.mstatus.legal;
      mie = h.mstatus.mpie;
      mpie = omega arith;
      mpp = h.mstatus.mpp;
    } in
    ground (arith, h, legal)

writeback_value-lt :
    (source : RegisterSource) (r : CpuResult) (pc : ℕ)
    → r.alu_result < 2 ^ 32
    → r.memory_load_value < 2 ^ 32
    → r.csr_result < 2 ^ 32
    → r.writeback_value < 2 ^ 32
    → writeback_value source r pc < 2 ^ 32
unfolding writeback_value
writeback_value-lt source r pc a l c w = ground arith

module _ {S : Type 0} (Holds : S → Type 0) where
  next_pc-IsValid :
      (c : Cpu S) (r : CpuResult)
      → IsValid Holds c
      → r.alu_result < 2 ^ 32
      → IsValid Holds (next_pc c r)
  unfolding next_pc
  next_pc-IsValid c r h lt =
      let csr = leave_trap-IsValid c.csr h.csr in
      elim (Bool-cases r.mret) [
        | inl mret ↦ rw mret record {
          registers = h.registers;
          pc = h.csr.mepc;
          csr = csr;
          cache = h.cache;
          memory = h.memory;
        }
        | inr other ↦ elim (Bool-cases r.branch_result) [
          | inl jump ↦
              rw (other, jump)
                record {
                  registers = h.registers;
                  pc = lt;
                  csr = h.csr;
                  cache = h.cache;
                  memory = h.memory;
                }
          | inr next ↦
              rw (other, next)
                record {
                  registers = h.registers;
                  pc = omega arith;
                  csr = h.csr;
                  cache = h.cache;
                  memory = h.memory;
                }
        ]
      ]

  pub writeback-IsValid :
      (c : Cpu S) (r : CpuResult)
      → IsValid Holds c
      → r.dest_register < 32
      → r.alu_result < 2 ^ 32
      → r.memory_load_value < 2 ^ 32
      → r.csr_result < 2 ^ 32
      → r.writeback_value < 2 ^ 32
      → IsValid Holds (writeback c r).0
  unfolding writeback
  writeback-IsValid c r h rd a l v w =
      let value = writeback_value r.writeback_source r c.pc in
      let lt = writeback_value-lt r.writeback_source r c.pc a l v w in
      let written = set_register-IsValid c.registers r.dest_register value h.registers rd lt in
      let r' = record r { writeback_value = value } in
      elim (Bool-cases (r.dest_register == 0)) [
        | inl zero ↦ rw zero (next_pc-IsValid c r' h a)
        | inr other ↦ rw other (
            next_pc-IsValid
              (record c { registers = set_register c.registers r.dest_register value }) r'
              record {
                registers = written;
                pc = h.pc;
                csr = h.csr;
                cache = h.cache;
                memory = h.memory;
              }
              a)
      ]
