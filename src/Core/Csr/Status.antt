-- ===== src/Core/Csr/Status.antt =====
-- lib/include/core/csr.hpp and lib/core/csr.cpp: `csr::Mstatus`, two words of bit-fields.
use simple_riscv_emulator.Common.{ℕ, ◌+◌, ◌*◌, ◌/◌, ◌%◌, ◌^◌}

-- A `bool` field is its bit.
pub record Mstatus : Type 0 where
  pub padding0_0 : ℕ
  pub sie : ℕ
  pub padding2_2 : ℕ
  pub mie : ℕ
  pub padding4_4 : ℕ
  pub spie : ℕ
  pub ube : ℕ
  pub mpie : ℕ
  pub spp : ℕ
  pub vs : ℕ
  pub mpp : ℕ
  pub fs : ℕ
  pub xs1 : ℕ
  pub xs2 : ℕ
  pub mprv : ℕ
  pub sum : ℕ
  pub mxr : ℕ
  pub tvm : ℕ
  pub tw : ℕ
  pub tsr : ℕ
  pub padding30_23 : ℕ
  pub sd : ℕ
  pub paddingh3_0 : ℕ
  pub sbe : ℕ
  pub mbe : ℕ
  pub paddingh31_6 : ℕ

-- `Priviledge::Machine`.
abbrev pub machine : ℕ
machine = 3

-- The default member initializers.
abbrev pub init_mstatus : Mstatus
init_mstatus = record {
  padding0_0 = 0;
  sie = 0;
  padding2_2 = 0;
  mie = 0;
  padding4_4 = 0;
  spie = 0;
  ube = 0;
  mpie = 0;
  spp = 0;
  vs = 0;
  mpp = machine;
  fs = 0;
  xs1 = 0;
  xs2 = 0;
  mprv = 0;
  sum = 0;
  mxr = 0;
  tvm = 0;
  tw = 0;
  tsr = 0;
  padding30_23 = 0;
  sd = 0;
  paddingh3_0 = 0;
  sbe = 0;
  mbe = 0;
  paddingh31_6 = 0;
}

-- `*(u32*)&mstatus` and `*((u32*)&mstatus + 1)`, read and written.
unfoldable pub low_word : Mstatus → ℕ
low_word m =
    m.padding0_0
    + m.sie * 2 ^ 1
    + m.padding2_2 * 2 ^ 2
    + m.mie * 2 ^ 3
    + m.padding4_4 * 2 ^ 4
    + m.spie * 2 ^ 5
    + m.ube * 2 ^ 6
    + m.mpie * 2 ^ 7
    + m.spp * 2 ^ 8
    + m.vs * 2 ^ 9
    + m.mpp * 2 ^ 11
    + m.fs * 2 ^ 13
    + m.xs1 * 2 ^ 15
    + m.xs2 * 2 ^ 16
    + m.mprv * 2 ^ 17
    + m.sum * 2 ^ 18
    + m.mxr * 2 ^ 19
    + m.tvm * 2 ^ 20
    + m.tw * 2 ^ 21
    + m.tsr * 2 ^ 22
    + m.padding30_23 * 2 ^ 23
    + m.sd * 2 ^ 31

unfoldable pub high_word : Mstatus → ℕ
high_word m = m.paddingh3_0 + m.sbe * 2 ^ 4 + m.mbe * 2 ^ 5 + m.paddingh31_6 * 2 ^ 6

unfoldable pub set_low_word : Mstatus → ℕ → Mstatus
set_low_word m w = record m {
  padding0_0 = w % 2;
  sie = w / 2 ^ 1 % 2;
  padding2_2 = w / 2 ^ 2 % 2;
  mie = w / 2 ^ 3 % 2;
  padding4_4 = w / 2 ^ 4 % 2;
  spie = w / 2 ^ 5 % 2;
  ube = w / 2 ^ 6 % 2;
  mpie = w / 2 ^ 7 % 2;
  spp = w / 2 ^ 8 % 2;
  vs = w / 2 ^ 9 % 2 ^ 2;
  mpp = w / 2 ^ 11 % 2 ^ 2;
  fs = w / 2 ^ 13 % 2 ^ 2;
  xs1 = w / 2 ^ 15 % 2;
  xs2 = w / 2 ^ 16 % 2;
  mprv = w / 2 ^ 17 % 2;
  sum = w / 2 ^ 18 % 2;
  mxr = w / 2 ^ 19 % 2;
  tvm = w / 2 ^ 20 % 2;
  tw = w / 2 ^ 21 % 2;
  tsr = w / 2 ^ 22 % 2;
  padding30_23 = w / 2 ^ 23 % 2 ^ 8;
  sd = w / 2 ^ 31 % 2;
}

unfoldable pub set_high_word : Mstatus → ℕ → Mstatus
set_high_word m w = record m {
  paddingh3_0 = w % 2 ^ 4;
  sbe = w / 2 ^ 4 % 2;
  mbe = w / 2 ^ 5 % 2;
  paddingh31_6 = w / 2 ^ 6 % 2 ^ 26;
}

-- What the emulator does not implement reads as 0.
unfoldable pub force_legal : Mstatus → Mstatus
force_legal m = record m {
  sie = 0;
  spie = 0;
  ube = 0;
  spp = 0;
  vs = 0;
  fs = 0;
  xs1 = 0;
  xs2 = 0;
  mprv = 0;
  sum = 0;
  mxr = 0;
  tvm = 0;
  tw = 0;
  tsr = 0;
  sd = 0;
  sbe = 0;
  mbe = 0;
  padding0_0 = 0;
  padding2_2 = 0;
  padding4_4 = 0;
  padding30_23 = 0;
  paddingh3_0 = 0;
  paddingh31_6 = 0;
}
