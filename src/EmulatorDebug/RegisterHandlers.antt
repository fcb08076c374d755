-- ===== src/EmulatorDebug/RegisterHandlers.antt =====
-- main/src/emulator-debug.cpp: the handlers of register commands.
use simple_riscv_emulator.Common.{ℕ, zero, suc, ◌+◌, List, [], ◌∷◌, ◌++◌, map, Option}
use simple_riscv_emulator.Core.Cpu.State.{Cpu}
use simple_riscv_emulator.GdbStub.Accessor.{read_register, write_register}
use simple_riscv_emulator.GdbStub.Response.{
  Response, ok_response, register_content, single_register_content,
}

-- The addresses of `CSR_module::metadata`, in order.
abbrev pub csr_addresses : List ℕ
csr_addresses =
    0x300 ∷ 0x301 ∷ 0x304 ∷ 0x305 ∷ 0x310 ∷ 0x340 ∷ 0x341 ∷ 0x342 ∷ 0x343 ∷ 0x344 ∷ 0xb00 ∷ 0xb02
    ∷ 0xb80 ∷ 0xb82 ∷ 0xf11 ∷ 0xf12 ∷ 0xf13 ∷ 0xf14 ∷ 0xf15 ∷ []

abbrev pub iota : ℕ → ℕ → List ℕ
iota first zero = []
iota first (suc n) = first ∷ iota (first + 1) n

abbrev pub regnums : List ℕ
regnums = iota 0 33 ++ map (λ address. address + 128) csr_addresses

module _ {S : Type 0} where
  unfoldable pub read_all : Cpu S → List ℕ → Cpu S × List (Option ℕ)
  unfolding read_register
  read_all c [] = (c, [])
  read_all c (regno ∷ rest) =
      let (c', value) = read_register c regno in
      let (c'', values) = read_all c' rest in (c'', value ∷ values)

  unfoldable pub handle_reg_read : Cpu S → Cpu S × Response
  unfolding read_all
  handle_reg_read c = let (c', values) = read_all c regnums in (c', register_content values)

  unfoldable pub write_all : Cpu S → List (ℕ × ℕ) → Cpu S
  unfolding write_register
  write_all c [] = c
  write_all c ((regno, value) ∷ rest) = write_all (write_register c regno value).0 rest

  unfoldable pub handle_reg_write : Cpu S → List (ℕ × ℕ) → Cpu S × Response
  unfolding write_all
  handle_reg_write c values = (write_all c values, ok_response)

  unfoldable pub handle_single_reg_read : Cpu S → ℕ → Cpu S × Response
  unfolding read_register
  handle_single_reg_read c regno =
      let (c', value) = read_register c regno in (c', single_register_content value)

  unfoldable pub handle_single_reg_write : Cpu S → ℕ → ℕ → Cpu S × Response
  unfolding write_register
  handle_single_reg_write c regno value = ((write_register c regno value).0, ok_response)
