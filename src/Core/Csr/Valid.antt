-- ===== src/Core/Csr/Valid.antt =====
-- The words of the CSRs stay words, the counters stay 64 bits wide, and mstatus stays legal.
use simple_riscv_emulator.Common.{
  ℕ, ◌+◌, ◌*◌, ◌/◌, ◌%◌, ◌^◌, ◌<◌, ◌≡◌, refl, arith, Option, none, some, ap,
}
use simple_riscv_emulator.Core.Csr.{
  Csr, CsrName, CsrAccessInfo, WriteMode, Mstatus, init, word, set_word, write_case, dispatch,
  access, tick, find_name, force_legal_mstatus, force_legal, low_word, high_word, set_low_word,
  set_high_word, write_value_mask, masked,
}
use simple_riscv_emulator.Core.Csr.Masked.{masked-lt}

-- An mstatus with the fields of machine mode only.
pub record IsLegal (m : Mstatus) : Type 0 where
  pub legal : force_legal m ≡ m
  pub mie : m.mie < 2
  pub mpie : m.mpie < 2
  pub mpp : m.mpp < 4

pub record IsValid (c : Csr) : Type 0 where
  pub mvendorid : c.mvendorid < 2 ^ 32
  pub marchid : c.marchid < 2 ^ 32
  pub mimpid : c.mimpid < 2 ^ 32
  pub mhartid : c.mhartid < 2 ^ 32
  pub mconfigptr : c.mconfigptr < 2 ^ 32
  pub misa : c.misa < 2 ^ 32
  pub mscratch : c.mscratch < 2 ^ 32
  pub mcycles : c.mcycles < 2 ^ 64
  pub minstret : c.minstret < 2 ^ 64
  pub mstatus : IsLegal c.mstatus
  pub mepc : c.mepc < 2 ^ 32
  pub mcause : c.mcause < 2 ^ 32
  pub mtval : c.mtval < 2 ^ 32
  pub mip : c.mip < 2 ^ 32
  pub mie : c.mie < 2 ^ 32
  pub mtvec : c.mtvec < 2 ^ 32

pub init-IsValid : IsValid init
unfolding force_legal
init-IsValid = record {
  mvendorid = omega arith;
  marchid = omega arith;
  mimpid = omega arith;
  mhartid = omega arith;
  mconfigptr = omega arith;
  misa = omega arith;
  mscratch = omega arith;
  mcycles = omega arith;
  minstret = omega arith;
  mstatus = record { legal = refl; mie = omega arith; mpie = omega arith; mpp = omega arith };
  mepc = omega arith;
  mcause = omega arith;
  mtval = omega arith;
  mip = omega arith;
  mie = omega arith;
  mtvec = omega arith;
}

-- The fields that a legal mstatus may set.
legal_words :
    (m : Mstatus)
    → (low_word (force_legal m) ≡ m.mie * 2 ^ 3 + m.mpie * 2 ^ 7 + m.mpp * 2 ^ 11)
      × (high_word (force_legal m) ≡ 0)
unfolding force_legal low_word high_word
legal_words m = omega arith

IsLegal-words : (m : Mstatus) → IsLegal m → (low_word m < 2 ^ 32) × (high_word m < 2 ^ 32)
IsLegal-words m h =
    let low : low_word (force_legal m) ≡ low_word m = ap low_word h.legal in
    let high : high_word (force_legal m) ≡ high_word m = ap high_word h.legal in
    omega (arith, legal_words m, low, high, h.mie, h.mpie, h.mpp)

force_legal-IsLegal : (m : Mstatus) → m.mie < 2 → m.mpie < 2 → m.mpp < 4 → IsLegal (force_legal m)
unfolding force_legal
force_legal-IsLegal m h k l = record { legal = refl; mie = h; mpie = k; mpp = l }

set_low_word-IsLegal : (m : Mstatus) (w : ℕ) → IsLegal m → IsLegal (force_legal (set_low_word m w))
unfolding set_low_word
set_low_word-IsLegal m w h =
    force_legal-IsLegal (set_low_word m w) (omega arith) (omega arith) (omega arith)

set_high_word-IsLegal :
    (m : Mstatus) (w : ℕ) → IsLegal m → IsLegal (force_legal (set_high_word m w))
unfolding set_high_word
set_high_word-IsLegal m w h = force_legal-IsLegal (set_high_word m w) h.mie h.mpie h.mpp

pub word-lt : (n : CsrName) (c : Csr) → IsValid c → word n c < 2 ^ 32
unfolding word
word-lt CsrName.mscratch c h = h.mscratch
word-lt CsrName.misa c h = h.misa
word-lt CsrName.mvendorid c h = h.mvendorid
word-lt CsrName.marchid c h = h.marchid
word-lt CsrName.mimpid c h = h.mimpid
word-lt CsrName.mhartid c h = h.mhartid
word-lt CsrName.mconfigptr c h = h.mconfigptr
word-lt CsrName.mepc c h = h.mepc
word-lt CsrName.mcause c h = h.mcause
word-lt CsrName.mtval c h = h.mtval
word-lt CsrName.mip c h = h.mip
word-lt CsrName.mie c h = h.mie
word-lt CsrName.mtvec c h = h.mtvec
word-lt CsrName.mcycles_low c h = omega arith
word-lt CsrName.mcycles_high c h = omega (arith, h.mcycles)
word-lt CsrName.minstret_low c h = omega arith
word-lt CsrName.minstret_high c h = omega (arith, h.minstret)
word-lt CsrName.mstatus_low c h = (IsLegal-words c.mstatus h.mstatus).0
word-lt CsrName.mstatus_high c h = (IsLegal-words c.mstatus h.mstatus).1

pub write_case-IsValid :
    (n : CsrName) (c : Csr) (mask value : ℕ)
    → IsValid c
    → value < 2 ^ 32
    → IsValid (write_case n c mask value).0
unfolding write_case set_word force_legal_mstatus
write_case-IsValid CsrName.mscratch c mask value h lt =
    let new = masked-lt mask value (word CsrName.mscratch c) lt (word-lt CsrName.mscratch c h) in
    ground (arith, new, h)
write_case-IsValid CsrName.misa c mask value h lt =
    let new = masked-lt mask value (word CsrName.misa c) lt (word-lt CsrName.misa c h) in
    ground (arith, new, h)
write_case-IsValid CsrName.mvendorid c mask value h lt =
    let new = masked-lt mask value (word CsrName.mvendorid c) lt (word-lt CsrName.mvendorid c h) in
    ground (arith, new, h)
write_case-IsValid CsrName.marchid c mask value h lt =
    let new = masked-lt mask value (word CsrName.marchid c) lt (word-lt CsrName.marchid c h) in
    ground (arith, new, h)
write_case-IsValid CsrName.mimpid c mask value h lt =
    let new = masked-lt mask value (word CsrName.mimpid c) lt (word-lt CsrName.mimpid c h) in
    ground (arith, new, h)
write_case-IsValid CsrName.mhartid c mask value h lt =
    let new = masked-lt mask value (word CsrName.mhartid c) lt (word-lt CsrName.mhartid c h) in
    ground (arith, new, h)
write_case-IsValid CsrName.mconfigptr c mask value h lt =
    let new =
      masked-lt mask value (word CsrName.mconfigptr c) lt (word-lt CsrName.mconfigptr c h) in
    ground (arith, new, h)
write_case-IsValid CsrName.mepc c mask value h lt =
    let new = masked-lt mask value (word CsrName.mepc c) lt (word-lt CsrName.mepc c h) in
    ground (arith, new, h)
write_case-IsValid CsrName.mcause c mask value h lt =
    let new = masked-lt mask value (word CsrName.mcause c) lt (word-lt CsrName.mcause c h) in
    ground (arith, new, h)
write_case-IsValid CsrName.mtval c mask value h lt =
    let new = masked-lt mask value (word CsrName.mtval c) lt (word-lt CsrName.mtval c h) in
    ground (arith, new, h)
write_case-IsValid CsrName.mip c mask value h lt =
    let new = masked-lt mask value (word CsrName.mip c) lt (word-lt CsrName.mip c h) in
    ground (arith, new, h)
write_case-IsValid CsrName.mie c mask value h lt =
    let new = masked-lt mask value (word CsrName.mie c) lt (word-lt CsrName.mie c h) in
    ground (arith, new, h)
write_case-IsValid CsrName.mtvec c mask value h lt =
    let new = masked-lt mask value (word CsrName.mtvec c) lt (word-lt CsrName.mtvec c h) in
    ground (arith, new, h)
write_case-IsValid CsrName.mcycles_low c mask value h lt =
    let new =
      masked-lt mask value (word CsrName.mcycles_low c) lt (word-lt CsrName.mcycles_low c h) in
    ground (arith, new, h)
write_case-IsValid CsrName.mcycles_high c mask value h lt =
    let new =
      masked-lt mask value (word CsrName.mcycles_high c) lt (word-lt CsrName.mcycles_high c h) in
    ground (arith, new, h)
write_case-IsValid CsrName.minstret_low c mask value h lt =
    let new =
      masked-lt mask value (word CsrName.minstret_low c) lt (word-lt CsrName.minstret_low c h) in
    ground (arith, new, h)
write_case-IsValid CsrName.minstret_high c mask value h lt =
    let new =
      masked-lt mask value (word CsrName.minstret_high c) lt (word-lt CsrName.minstret_high c h) in
    ground (arith, new, h)
write_case-IsValid CsrName.mstatus_low c mask value h lt =
    let new =
      set_low_word-IsLegal c.mstatus (masked mask value (word CsrName.mstatus_low c)) h.mstatus in
    ground (arith, new, h)
write_case-IsValid CsrName.mstatus_high c mask value h lt =
    let new =
      set_high_word-IsLegal c.mstatus (masked mask value (word CsrName.mstatus_high c)) h.mstatus in
    ground (arith, new, h)

dispatch-IsValid :
    (n : Option CsrName) (c : Csr) (mask value : ℕ)
    → IsValid c
    → value < 2 ^ 32
    → IsValid (dispatch n c mask value).0
unfolding dispatch
dispatch-IsValid none c mask value h lt = h
dispatch-IsValid (some n) c mask value h lt = write_case-IsValid n c mask value h lt

pub write_value-lt : (mode : WriteMode) (v : ℕ) → v < 2 ^ 32 → (write_value_mask mode v).0 < 2 ^ 32
unfolding write_value_mask
write_value-lt WriteMode.none v h = omega arith
write_value-lt WriteMode.overwrite v h = h
write_value-lt WriteMode.set v h = omega arith
write_value-lt WriteMode.clear v h = omega arith

-- An access with a word as value keeps valid CSRs valid, whatever it returns: each CSR a word, the
-- counters 64 bits wide, and mstatus legal.
pub access-IsValid :
    (c : Csr) (info : CsrAccessInfo)
    → IsValid c
    → info.write_value < 2 ^ 32
    → IsValid (access c info).0
unfolding access
access-IsValid c info h lt =
    let bound = write_value-lt info.write_mode info.write_value lt in
    let after =
      dispatch-IsValid (find_name info.address) c
        (write_value_mask info.write_mode info.write_value).1
        (write_value_mask info.write_mode info.write_value).0 h bound in
    ground (arith, after, h)

-- So does a tick, which counts both counters up modulo 2 ^ 64.
pub tick-IsValid : (c : Csr) → IsValid c → IsValid (tick c)
unfolding tick
tick-IsValid c h = ground (arith, h)

-- A tick of valid CSRs adds 1 to the two 64-bit counters, modulo 2 ^ 64: the low word wraps around
-- and carries into the high word.
pub tick-carry :
    (c : Csr)
    → IsValid c
    → (word CsrName.mcycles_low (tick c) ≡ (word CsrName.mcycles_low c + 1) % 2 ^ 32)
      × (word CsrName.mcycles_high (tick c)
          ≡ (word CsrName.mcycles_high c + (word CsrName.mcycles_low c + 1) / 2 ^ 32) % 2 ^ 32)
      × (word CsrName.minstret_low (tick c) ≡ (word CsrName.minstret_low c + 1) % 2 ^ 32)
      × (word CsrName.minstret_high (tick c)
          ≡ (word CsrName.minstret_high c + (word CsrName.minstret_low c + 1) / 2 ^ 32) % 2 ^ 32)
unfolding tick word
tick-carry c h = omega (arith, h.mcycles, h.minstret)
