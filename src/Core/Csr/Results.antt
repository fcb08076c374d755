-- ===== src/Core/Csr/Results.antt =====
-- The values that accesses of CSRs return.
use simple_riscv_emulator.Common.{ℕ, ◌^◌, ◌<◌, ◌≡◌, arith, Option, none, some, ok}
use simple_riscv_emulator.Core.Csr.{
  Csr, CsrName, CsrAccessInfo, write_case, dispatch, access, find_name, write_value_mask,
}
use simple_riscv_emulator.Core.Csr.Valid.{IsValid, word-lt, write_case-IsValid, write_value-lt}

write_case-lt :
    (n : CsrName) (c : Csr) (mask value : ℕ)
    → IsValid c
    → value < 2 ^ 32
    → (write_case n c mask value).1 < 2 ^ 32
unfolding write_case
write_case-lt CsrName.mscratch c mask value h lt = word-lt CsrName.mscratch c h
write_case-lt CsrName.misa c mask value h lt = word-lt CsrName.misa c h
write_case-lt CsrName.mvendorid c mask value h lt = word-lt CsrName.mvendorid c h
write_case-lt CsrName.marchid c mask value h lt = word-lt CsrName.marchid c h
write_case-lt CsrName.mimpid c mask value h lt = word-lt CsrName.mimpid c h
write_case-lt CsrName.mhartid c mask value h lt = word-lt CsrName.mhartid c h
write_case-lt CsrName.mconfigptr c mask value h lt = word-lt CsrName.mconfigptr c h
write_case-lt CsrName.mcycles_low c mask value h lt = word-lt CsrName.mcycles_low c h
write_case-lt CsrName.mcycles_high c mask value h lt = word-lt CsrName.mcycles_high c h
write_case-lt CsrName.minstret_low c mask value h lt = word-lt CsrName.minstret_low c h
write_case-lt CsrName.minstret_high c mask value h lt = word-lt CsrName.minstret_high c h
write_case-lt CsrName.mepc c mask value h lt = word-lt CsrName.mepc c h
write_case-lt CsrName.mcause c mask value h lt = word-lt CsrName.mcause c h
write_case-lt CsrName.mtval c mask value h lt = word-lt CsrName.mtval c h
write_case-lt CsrName.mip c mask value h lt = word-lt CsrName.mip c h
write_case-lt CsrName.mie c mask value h lt = word-lt CsrName.mie c h
write_case-lt CsrName.mtvec c mask value h lt = word-lt CsrName.mtvec c h
write_case-lt CsrName.mstatus_low c mask value h lt =
    word-lt CsrName.mstatus_low (write_case CsrName.mstatus_low c mask value).0
      (write_case-IsValid CsrName.mstatus_low c mask value h lt)
write_case-lt CsrName.mstatus_high c mask value h lt =
    word-lt CsrName.mstatus_high (write_case CsrName.mstatus_high c mask value).0
      (write_case-IsValid CsrName.mstatus_high c mask value h lt)

dispatch-lt :
    (n : Option CsrName) (c : Csr) (mask value v : ℕ)
    → IsValid c
    → value < 2 ^ 32
    → (dispatch n c mask value).1 ≡ ok v
    → v < 2 ^ 32
unfolding dispatch
dispatch-lt none c mask value v h lt e = absurd (ground (arith, e))
dispatch-lt (some n) c mask value v h lt e = ground (arith, e, write_case-lt n c mask value h lt)

-- An access returns a word.
pub access-lt :
    (c : Csr) (info : CsrAccessInfo) (v : ℕ)
    → IsValid c
    → info.write_value < 2 ^ 32
    → (access c info).1 ≡ ok v
    → v < 2 ^ 32
unfolding access
access-lt c info v h lt e =
    let bound = write_value-lt info.write_mode info.write_value lt in
    let deep =
      dispatch-lt (find_name info.address) c (write_value_mask info.write_mode info.write_value).1
        (write_value_mask info.write_mode info.write_value).0 v h bound in
    ground (arith, e, deep)
