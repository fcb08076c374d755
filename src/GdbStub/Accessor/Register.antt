-- ===== src/GdbStub/Accessor/Register.antt =====
-- lib/gdb-stub/accessor.cpp: `CPU_register_accessor` as a store of registers.
use simple_riscv_emulator.Common.{
  ℕ, ◌≤◌, ◌<◌, Bool, true, false, not, ◌&&◌, Option, some, ltb, ◌==◌, if◌then◌else◌, ◌≡◌, refl, sym,
  ap, ◌∙◌, ◌⊎◌, inl, inr, arith,
}
use simple_riscv_emulator.Core.Cpu.State.{Cpu}
use simple_riscv_emulator.Core.RegisterFile.{get_register, set_register}
use simple_riscv_emulator.Core.RegisterFile.Laws.{IsValid, get_register-set_register}
use simple_riscv_emulator.GdbStub.Accessor.{read_register, write_register}

if_some :
    (b : Bool) (v w : ℕ) {o : Option ℕ}
    → o ≡ some w
    → some (if b then v else w) ≡ (if b then some v else o)
if_some true v w h = refl
if_some false v w h = sym h

low_or_pc : (r : ℕ) → r ≤ 32 → (r < 32) ⊎ (r ≡ 32)
low_or_pc r h = ground arith

below_pc : (q : ℕ) → q < 32 → (q == 32) ≡ false
below_pc q h = ground arith

module _ {S : Type 0} where
  read_low :
      (c : Cpu S) (q : ℕ) → q < 32 → (read_register c q).1 ≡ some (get_register c.registers q)
  unfolding read_register
  read_low c q h = let t : ltb q 32 ≡ true = ground arith in rw t refl

  write_low :
      (c : Cpu S) (r v : ℕ)
      → r < 32
      → write_register c r v ≡ (record c { registers = set_register c.registers r v }, true)
  unfolding write_register
  write_low c r v h = let t : ltb r 32 ≡ true = ground arith in rw t refl

  -- The register that is read, of the two kinds, after a write to a general register.
  read-write_low :
      (c : Cpu S) (r q v : ℕ)
      → IsValid c.registers
      → r < 32
      → q ≤ 32
      → (read_register (record c { registers = set_register c.registers r v }) q).1
        ≡ (if (q == r) && not (r == 0) then some v else (read_register c q).1)
  unfolding read_register
  read-write_low c r q v h lr lq = elim (low_or_pc q lq) [
    | inl low ↦
        read_low (record c { registers = set_register c.registers r v }) q low
        ∙ ap some (get_register-set_register c.registers r q v h lr)
        ∙ if_some ((q == r) && not (r == 0)) v _ (read_low c q low)
    | inr pc ↦ let f : (32 == r) ≡ false = ground arith in rw (pc, f) refl
  ]

  write_pc : (c : Cpu S) (v : ℕ) → write_register c 32 v ≡ (record c { pc = v }, true)
  unfolding write_register
  write_pc c v = refl

  read_pc : (c : Cpu S) → (read_register c 32).1 ≡ some c.pc
  unfolding read_register
  read_pc c = refl

  read-write_pc :
      (c : Cpu S) (q v : ℕ)
      → q ≤ 32
      → (read_register (record c { pc = v }) q).1
        ≡ (if (q == 32) && true then some v else (read_register c q).1)
  read-write_pc c q v lq = elim (low_or_pc q lq) [
    | inl low ↦ rw (below_pc q low) (read_low (record c { pc = v }) q low ∙ sym (read_low c q low))
    | inr pc ↦ rw pc (read_pc (record c { pc = v }))
  ]

  -- Of the thirty-two registers and the pc (number 32), a register that is written reads as the
  -- value, but for register 0, which reads as before, and every other one reads as before; each
  -- write is reported as done.
  pub read_register-write_register :
      (c : Cpu S) (r q v : ℕ)
      → IsValid c.registers
      → r ≤ 32
      → q ≤ 32
      → ((write_register c r v).1 ≡ true)
        × ((read_register (write_register c r v).0 q).1
            ≡ (if (q == r) && not (r == 0) then some v else (read_register c q).1))
  read_register-write_register c r q v h lr lq = elim (low_or_pc r lr) [
    | inl low ↦ rw (write_low c r v low) (refl, read-write_low c r q v h low lq)
    | inr pc ↦ rw (pc, write_pc c v) (refl, read-write_pc c q v lq)
  ]
