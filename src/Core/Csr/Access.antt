-- ===== src/Core/Csr/Access.antt =====
-- What an access of a CSR returns and writes, and which CSRs it leaves alone.
use simple_riscv_emulator.Common.{
  ℕ, ◌+◌, ◌*◌, ◌/◌, ◌%◌, ◌^◌, ◌<◌, ◌≡◌, ◌≢◌, refl, arith, Bool, true, not, ◌||◌, ◌==◌, Option, none,
  some, ok, unexpected, bit, inl, inr, ◌⊎◌, ap, ◌∙◌, Bool-cases,
}
use simple_riscv_emulator.Bitset.{slice}
use simple_riscv_emulator.Core.Csr.{
  Csr, CsrName, CsrAccessInfo, CsrError, is_none, word, set_word, low_word, high_word, set_low_word,
  set_high_word, write_case, dispatch, access, find_name, masked, write_value_mask, write_readonly,
  not_exists,
}
use simple_riscv_emulator.Core.Csr.Masked.{
  masked-zero, new_word, new_word-lt, written_bit, bit-new_word,
}
use simple_riscv_emulator.Core.Csr.Valid.{IsValid, word-lt, write_value-lt}

-- Every CSR but mstatus, whose words are made legal.
abbrev pub IsPlain : CsrName → Type 0
IsPlain n = (n ≢ CsrName.mstatus_low) × (n ≢ CsrName.mstatus_high)

word-set_word :
    (n : CsrName) (c : Csr) (w : ℕ) → IsPlain n → w < 2 ^ 32 → word n (set_word n c w) ≡ w
unfolding word set_word
word-set_word CsrName.mscratch c w h lt = omega arith
word-set_word CsrName.misa c w h lt = omega arith
word-set_word CsrName.mvendorid c w h lt = omega arith
word-set_word CsrName.marchid c w h lt = omega arith
word-set_word CsrName.mimpid c w h lt = omega arith
word-set_word CsrName.mhartid c w h lt = omega arith
word-set_word CsrName.mconfigptr c w h lt = omega arith
word-set_word CsrName.mcycles_low c w h lt = omega arith
word-set_word CsrName.mcycles_high c w h lt = omega arith
word-set_word CsrName.minstret_low c w h lt = omega arith
word-set_word CsrName.minstret_high c w h lt = omega arith
word-set_word CsrName.mepc c w h lt = omega arith
word-set_word CsrName.mcause c w h lt = omega arith
word-set_word CsrName.mtval c w h lt = omega arith
word-set_word CsrName.mip c w h lt = omega arith
word-set_word CsrName.mie c w h lt = omega arith
word-set_word CsrName.mtvec c w h lt = omega arith
word-set_word CsrName.mstatus_low c w h lt = absurd (h.0 refl)
word-set_word CsrName.mstatus_high c w h lt = absurd (h.1 refl)

set_word-other :
    (n m : CsrName) (c : Csr) (w : ℕ) → m ≢ n → w < 2 ^ 32 → word m (set_word n c w) ≡ word m c
unfolding word set_word low_word high_word set_low_word set_high_word
set_word-other CsrName.mscratch m c w h lt = ground (arith, h)
set_word-other CsrName.misa m c w h lt = ground (arith, h)
set_word-other CsrName.mvendorid m c w h lt = ground (arith, h)
set_word-other CsrName.marchid m c w h lt = ground (arith, h)
set_word-other CsrName.mimpid m c w h lt = ground (arith, h)
set_word-other CsrName.mhartid m c w h lt = ground (arith, h)
set_word-other CsrName.mconfigptr m c w h lt = ground (arith, h)
set_word-other CsrName.mcycles_low m c w h lt = ground (arith, h)
set_word-other CsrName.mcycles_high m c w h lt = ground (arith, h)
set_word-other CsrName.minstret_low m c w h lt = ground (arith, h)
set_word-other CsrName.minstret_high m c w h lt = ground (arith, h)
set_word-other CsrName.mepc m c w h lt = ground (arith, h)
set_word-other CsrName.mcause m c w h lt = ground (arith, h)
set_word-other CsrName.mtval m c w h lt = ground (arith, h)
set_word-other CsrName.mip m c w h lt = ground (arith, h)
set_word-other CsrName.mie m c w h lt = ground (arith, h)
set_word-other CsrName.mtvec m c w h lt = ground (arith, h)
set_word-other CsrName.mstatus_low m c w h lt = ground (arith, h)
set_word-other CsrName.mstatus_high m c w h lt = ground (arith, h)

-- The store of a plain CSR.
write_case-plain :
    (n : CsrName) (c : Csr) (mask value : ℕ)
    → IsPlain n
    → write_case n c mask value ≡ (set_word n c (masked mask value (word n c)), word n c)
unfolding write_case
write_case-plain CsrName.mscratch c mask value h = refl
write_case-plain CsrName.misa c mask value h = refl
write_case-plain CsrName.mvendorid c mask value h = refl
write_case-plain CsrName.marchid c mask value h = refl
write_case-plain CsrName.mimpid c mask value h = refl
write_case-plain CsrName.mhartid c mask value h = refl
write_case-plain CsrName.mconfigptr c mask value h = refl
write_case-plain CsrName.mcycles_low c mask value h = refl
write_case-plain CsrName.mcycles_high c mask value h = refl
write_case-plain CsrName.minstret_low c mask value h = refl
write_case-plain CsrName.minstret_high c mask value h = refl
write_case-plain CsrName.mepc c mask value h = refl
write_case-plain CsrName.mcause c mask value h = refl
write_case-plain CsrName.mtval c mask value h = refl
write_case-plain CsrName.mip c mask value h = refl
write_case-plain CsrName.mie c mask value h = refl
write_case-plain CsrName.mtvec c mask value h = refl
write_case-plain CsrName.mstatus_low c mask value h = absurd (h.0 refl)
write_case-plain CsrName.mstatus_high c mask value h = absurd (h.1 refl)

set_word-word : (n : CsrName) (c : Csr) → IsPlain n → set_word n c (word n c) ≡ c
unfolding word set_word
set_word-word CsrName.mscratch c h = refl
set_word-word CsrName.misa c h = refl
set_word-word CsrName.mvendorid c h = refl
set_word-word CsrName.marchid c h = refl
set_word-word CsrName.mimpid c h = refl
set_word-word CsrName.mhartid c h = refl
set_word-word CsrName.mconfigptr c h = refl
set_word-word CsrName.mcycles_low c h =
    let e : c.mcycles / 2 ^ 32 * 2 ^ 32 + c.mcycles % 2 ^ 32 ≡ c.mcycles = omega arith in
    λ k. record c { mcycles = e k }
set_word-word CsrName.mcycles_high c h =
    let e : c.mcycles / 2 ^ 32 * 2 ^ 32 + c.mcycles % 2 ^ 32 ≡ c.mcycles = omega arith in
    λ k. record c { mcycles = e k }
set_word-word CsrName.minstret_low c h =
    let e : c.minstret / 2 ^ 32 * 2 ^ 32 + c.minstret % 2 ^ 32 ≡ c.minstret = omega arith in
    λ k. record c { minstret = e k }
set_word-word CsrName.minstret_high c h =
    let e : c.minstret / 2 ^ 32 * 2 ^ 32 + c.minstret % 2 ^ 32 ≡ c.minstret = omega arith in
    λ k. record c { minstret = e k }
set_word-word CsrName.mepc c h = refl
set_word-word CsrName.mcause c h = refl
set_word-word CsrName.mtval c h = refl
set_word-word CsrName.mip c h = refl
set_word-word CsrName.mie c h = refl
set_word-word CsrName.mtvec c h = refl
set_word-word CsrName.mstatus_low c h = absurd (h.0 refl)
set_word-word CsrName.mstatus_high c h = absurd (h.1 refl)

-- The address is no read-only one, or no bit is written.
abbrev pub IsPermitted : CsrAccessInfo → Type 0
IsPermitted info =
    (slice 11 10 info.address ≢ 3) ⊎ ((write_value_mask info.write_mode info.write_value).1 ≡ 0)

-- Something is read or written.
abbrev pub is_active : CsrAccessInfo → Bool
is_active info = info.read || not (is_none info.write_mode)

pub access-dispatch :
    (c : Csr) (info : CsrAccessInfo)
    → IsPermitted info
    → is_active info ≡ true
    → access c info
      ≡ dispatch
          (find_name info.address)
          c
          (write_value_mask info.write_mode info.write_value).1
          (write_value_mask info.write_mode info.write_value).0
unfolding access
access-dispatch c info h active = ground arith

dispatch-plain :
    (c : Csr) (o : Option CsrName) (n : CsrName) (mask value : ℕ)
    → o ≡ some n
    → IsPlain n
    → dispatch o c mask value ≡ (set_word n c (masked mask value (word n c)), ok (word n c))
unfolding dispatch
dispatch-plain c o n mask value e h = rw (e, write_case-plain n c mask value h) refl

-- In valid CSRs, an access of a CSR other than mstatus that reads or writes, and does not write to
-- a read-only address, makes each bit of the word what the write mode says (kept, replaced, set or
-- cleared), changes no other CSR, and returns the word that was there. A write with `read` false
-- returns that word too, where the comment in csr.hpp promises 0.
pub access-written_bit :
    (c : Csr) (info : CsrAccessInfo) (n m : CsrName) (i : ℕ)
    → IsValid c
    → info.write_value < 2 ^ 32
    → find_name info.address ≡ some n
    → IsPlain n
    → IsPermitted info
    → is_active info ≡ true
    → i < 32
    → m ≢ n
    → ((access c info).1 ≡ ok (word n c))
      × (bit i (word n (access c info).0)
          ≡ written_bit info.write_mode (bit i info.write_value) (bit i (word n c)))
      × (word m (access c info).0 ≡ word m c)
access-written_bit c info n m i h lt named plain permitted active fits other =
    let (value, mask) = write_value_mask info.write_mode info.write_value in
    let w = new_word info.write_mode info.write_value (word n c) in
    let bound = new_word-lt info.write_mode info.write_value (word n c) lt (word-lt n c h) in
    let run : access c info ≡ (set_word n c w, ok (word n c)) =
      access-dispatch c info permitted active
      ∙ dispatch-plain c (find_name info.address) n
          (write_value_mask info.write_mode info.write_value).1
          (write_value_mask info.write_mode info.write_value).0 named plain in
    rw run (
      refl,
      ap (bit i) (word-set_word n c w plain bound)
          ∙ bit-new_word i info.write_mode info.write_value (word n c) fits lt,
      set_word-other n m c w other bound,
    )

dispatch-error :
    (o : Option CsrName) (c : Csr) (mask value : ℕ) (e : CsrError)
    → (dispatch o c mask value).1 ≡ unexpected e
    → ((dispatch o c mask value).0 ≡ c) × (e ≡ not_exists) × (o ≡ none)
unfolding dispatch
dispatch-error none c mask value e h = ground (arith, h)
dispatch-error (some n) c mask value e h = ground (arith, h)

-- An access that fails leaves every CSR as it is. It fails with `write_readonly` only for a write to
-- an address with the top bits 11, and with `not_exists` only for an address of no CSR.
pub access-error :
    (c : Csr) (info : CsrAccessInfo) (e : CsrError)
    → (access c info).1 ≡ unexpected e
    → ((access c info).0 ≡ c)
      × ((e ≡ write_readonly)
            × (slice 11 10 info.address ≡ 3)
            × ((write_value_mask info.write_mode info.write_value).1 ≢ 0)
          ⊎ (e ≡ not_exists) × (find_name info.address ≡ none))
unfolding access
access-error c info e h =
    let deep =
      dispatch-error (find_name info.address) c
        (write_value_mask info.write_mode info.write_value).1
        (write_value_mask info.write_mode info.write_value).0 e in
    ground (arith, h, deep)

readonly-IsPlain : (a : ℕ) (n : CsrName) → find_name a ≡ some n → slice 11 10 a ≡ 3 → IsPlain n
unfolding find_name
readonly-IsPlain a n h k = ground (arith, h, k)

dispatch-kept :
    (c : Csr) (o : Option CsrName) (value : ℕ)
    → IsValid c
    → value < 2 ^ 32
    → ((n : CsrName) → o ≡ some n → IsPlain n)
    → (dispatch o c 0 value).0 ≡ c
unfolding dispatch
dispatch-kept c none value h lt plain = refl
dispatch-kept c (some n) value h lt plain =
    rw
      (write_case-plain n c 0 value (plain n refl), masked-zero value (word n c) lt (word-lt n c h))
      (set_word-word n c (plain n refl))

-- No access with a word as value to an address with the top bits 11 changes valid CSRs.
pub access-readonly :
    (c : Csr) (info : CsrAccessInfo)
    → IsValid c
    → info.write_value < 2 ^ 32
    → slice 11 10 info.address ≡ 3
    → (access c info).0 ≡ c
unfolding access
access-readonly c info h lt k =
    let mask = (write_value_mask info.write_mode info.write_value).1 in
    let value = (write_value_mask info.write_mode info.write_value).0 in
    elim (Bool-cases (mask == 0)) [
      | inl zero ↦
          let e : mask ≡ 0 = ground arith in
          let kept =
            dispatch-kept c (find_name info.address) value h
              (write_value-lt info.write_mode info.write_value lt)
              (λ n named. readonly-IsPlain info.address n named k) in
          rw e (ground (arith, kept))
      | inr writes ↦ ground arith
    ]
