-- ===== src/Core/Csr/StatusAccess.antt =====
-- What an access of mstatus returns and writes.
use simple_riscv_emulator.Common.{ℕ, ◌+◌, ◌*◌, ◌/◌, ◌%◌, ◌^◌, ◌≡◌, refl, arith, true, some, ok}
use simple_riscv_emulator.Core.Csr.{
  Csr, CsrName, CsrAccessInfo, word, set_word, low_word, set_low_word, write_case, dispatch, access,
  find_name, force_legal_mstatus, force_legal, masked, write_value_mask,
}
use simple_riscv_emulator.Core.Csr.Masked.{new_word}
use simple_riscv_emulator.Core.Csr.Access.{IsPermitted, is_active, access-dispatch}

-- A word with all but the bits of `mie`, `mpie` and `mpp` cleared.
abbrev pub legal_word : ℕ → ℕ
legal_word w = w / 2 ^ 3 % 2 * 2 ^ 3 + w / 2 ^ 7 % 2 * 2 ^ 7 + w / 2 ^ 11 % 2 ^ 2 * 2 ^ 11

write_case-mstatus :
    (c : Csr) (mask value : ℕ)
    → let w = masked mask value (word CsrName.mstatus_low c) in
      let after = write_case CsrName.mstatus_low c mask value in
      (after.1 ≡ word CsrName.mstatus_low after.0)
      × (word CsrName.mstatus_low after.0 ≡ legal_word w)
      × (after.0.mstatus.mie ≡ w / 2 ^ 3 % 2)
unfolding write_case word set_word force_legal_mstatus force_legal low_word set_low_word
write_case-mstatus c mask value = (refl, omega arith, refl)

-- An access of mstatus that reads or writes makes of its word what the write mode says, clears
-- every bit but those of mie, mpie and mpp, and returns the word that is there afterwards: not the
-- one from before, as for other CSRs, and also for a write with `read` false, where the comment in
-- csr.hpp promises 0.
pub access-mstatus :
    (c : Csr) (info : CsrAccessInfo)
    → find_name info.address ≡ some CsrName.mstatus_low
    → IsPermitted info
    → is_active info ≡ true
    → let after = (access c info).0 in
      ((access c info).1 ≡ ok (word CsrName.mstatus_low after))
      × (word CsrName.mstatus_low after
          ≡ legal_word (new_word info.write_mode info.write_value (word CsrName.mstatus_low c)))
unfolding dispatch
access-mstatus c info named permitted active =
    let mask = (write_value_mask info.write_mode info.write_value).1 in
    let value = (write_value_mask info.write_mode info.write_value).0 in
    let written = write_case-mstatus c mask value in
    let run = access-dispatch c info permitted active in
    rw (run, named, written.0) (refl, written.1)
