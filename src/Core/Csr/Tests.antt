-- ===== src/Core/Csr/Tests.antt =====
-- lib/core/csr.cpp: accesses of CSRs at reset.
use simple_riscv_emulator.Common.{◌≡◌, ◌≢◌, refl, arith, true, false, none, ok, bit, inl, ◌⊎◌}
use simple_riscv_emulator.Bitset.{slice}
use simple_riscv_emulator.Core.Csr.{
  CsrName, CsrAccessInfo, WriteMode, init, word, access, find_name, write_value_mask,
  write_readonly, not_exists,
}
use simple_riscv_emulator.Core.Csr.Masked.{new_word, written_bit}
use simple_riscv_emulator.Core.Csr.Valid.{IsValid, init-IsValid, access-IsValid}
use simple_riscv_emulator.Core.Csr.Access.{access-written_bit, access-error, access-readonly}
use simple_riscv_emulator.Core.Csr.StatusAccess.{access-mstatus, legal_word}

-- csrrs of mie with 0x80, and of mstatus with all bits
abbrev set_mie : CsrAccessInfo
set_mie = record { write_mode = WriteMode.set; address = 0x304; write_value = 0x80; read = true }

abbrev set_mstatus : CsrAccessInfo
set_mstatus = record {
  write_mode = WriteMode.set;
  address = 0x300;
  write_value = 0xffff_ffff;
  read = true;
}

abbrev write_hart : CsrAccessInfo
write_hart = record {
  write_mode = WriteMode.overwrite;
  address = 0xf14;
  write_value = 1;
  read = false;
}

access-IsValid_example : IsValid (access init set_mie).0
access-IsValid_example = access-IsValid init set_mie init-IsValid (omega arith)

access-written_bit_example :
    ((access init set_mie).1 ≡ ok (word CsrName.mie init))
    × (bit 7 (word CsrName.mie (access init set_mie).0)
        ≡ written_bit WriteMode.set (bit 7 0x80) (bit 7 (word CsrName.mie init)))
    × (word CsrName.mip (access init set_mie).0 ≡ word CsrName.mip init)
unfolding find_name write_value_mask
access-written_bit_example =
    access-written_bit init set_mie CsrName.mie CsrName.mip 7 init-IsValid (omega arith) refl
      (ground arith, ground arith) (inl (omega arith)) refl (omega arith) (ground arith)

access-error_example :
    ((access init write_hart).0 ≡ init)
    × ((write_readonly ≡ write_readonly)
          × (slice 11 10 0xf14 ≡ 3)
          × ((write_value_mask WriteMode.overwrite 1).1 ≢ 0)
        ⊎ (write_readonly ≡ not_exists) × (find_name 0xf14 ≡ none))
unfolding access write_value_mask
access-error_example = access-error init write_hart write_readonly refl

access-readonly_example : (access init write_hart).0 ≡ init
access-readonly_example = access-readonly init write_hart init-IsValid (omega arith) refl

access-mstatus_example :
    let after = (access init set_mstatus).0 in
    ((access init set_mstatus).1 ≡ ok (word CsrName.mstatus_low after))
    × (word CsrName.mstatus_low after
        ≡ legal_word (new_word WriteMode.set 0xffff_ffff (word CsrName.mstatus_low init)))
unfolding find_name
access-mstatus_example = access-mstatus init set_mstatus refl (inl (omega arith)) refl
