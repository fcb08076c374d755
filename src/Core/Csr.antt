-- ===== src/Core/Csr.antt =====
-- lib/core/csr.cpp and lib/include/core/csr.hpp: the control and status registers. Access by
-- address, and the tick of the two counters.
mod Status
unfoldable pub use Status.*
pub mod Masked
pub mod Valid
pub mod Access
pub mod StatusAccess
pub mod Results
mod Tests
use simple_riscv_emulator.Common.{
  ℕ, ◌+◌, ◌*◌, ◌/◌, ◌%◌, ◌^◌, Bool, true, false, ◌&&◌, not, Option, some, ◌==◌, if◌then◌else◌,
  bit_and, bit_or, not32, u64, Expected, ok, unexpected,
}
use simple_riscv_emulator.Bitset.{slice}

-- `CSR_write_mode`.
pub data WriteMode : Type 0 where
  none overwrite set clear : WriteMode

-- `CSR_access_info`.
pub record CsrAccessInfo : Type 0 where
  pub write_mode : WriteMode
  pub address : ℕ
  pub write_value : ℕ
  pub read : Bool

-- `CSR_module::Error`.
pub data CsrError : Type 0 where
  insufficient_priviledge write_readonly not_exists : CsrError

-- `CSR_module`. Apart from `mstatus`, a register is its word; `mcause`, `mtvec` and `misa` are
-- structs of bit-fields there, read as one word.
pub record Csr : Type 0 where
  pub mvendorid : ℕ
  pub marchid : ℕ
  pub mimpid : ℕ
  pub mhartid : ℕ
  pub mconfigptr : ℕ
  pub misa : ℕ
  pub mscratch : ℕ
  pub mcycles : ℕ
  pub minstret : ℕ
  pub mstatus : Mstatus
  pub mepc : ℕ
  pub mcause : ℕ
  pub mtval : ℕ
  pub mip : ℕ
  pub mie : ℕ
  pub mtvec : ℕ

-- The initial values; `misa` has `ext_i`, `ext_m` and `base = Rv32`.
abbrev pub init : Csr
init = record {
  mvendorid = 0;
  marchid = 0;
  mimpid = 0;
  mhartid = 0;
  mconfigptr = 0;
  misa = 2 ^ 8 + 2 ^ 12 + 2 ^ 30;
  mscratch = 0;
  mcycles = 0;
  minstret = 0;
  mstatus = init_mstatus;
  mepc = 0;
  mcause = 0;
  mtval = 0;
  mip = 0;
  mie = 0;
  mtvec = 0;
}

-- `csr::Mtvec`: `mode` in the two low bits, `base_upper30` above them.
abbrev pub mtvec_mode : Csr → ℕ
mtvec_mode c = c.mtvec % 4

abbrev pub mtvec_base_upper30 : Csr → ℕ
mtvec_base_upper30 c = c.mtvec / 4

-- The labels of the `switch`: one word of a member each.
pub data CsrName : Type 0 where
  mscratch misa mvendorid marchid mimpid mhartid mconfigptr : CsrName
  mcycles_low mcycles_high minstret_low minstret_high : CsrName
  mepc mcause mtval mip mie mtvec mstatus_low mstatus_high : CsrName

-- The `address` constants of the classes, in the order of the `switch`.
unfoldable pub find_name : ℕ → Option CsrName
find_name address =
    if address == 0x340
    then some CsrName.mscratch
    else if address == 0x301
    then some CsrName.misa
    else if address == 0xf11
    then some CsrName.mvendorid
    else if address == 0xf12
    then some CsrName.marchid
    else if address == 0xf13
    then some CsrName.mimpid
    else if address == 0xf14
    then some CsrName.mhartid
    else if address == 0xf15
    then some CsrName.mconfigptr
    else if address == 0xb00
    then some CsrName.mcycles_low
    else if address == 0xb80
    then some CsrName.mcycles_high
    else if address == 0xb02
    then some CsrName.minstret_low
    else if address == 0xb82
    then some CsrName.minstret_high
    else if address == 0x341
    then some CsrName.mepc
    else if address == 0x342
    then some CsrName.mcause
    else if address == 0x343
    then some CsrName.mtval
    else if address == 0x344
    then some CsrName.mip
    else if address == 0x304
    then some CsrName.mie
    else if address == 0x305
    then some CsrName.mtvec
    else if address == 0x300
    then some CsrName.mstatus_low
    else if address == 0x310
    then some CsrName.mstatus_high
    else Option.none

-- The word that a label reads.
unfoldable pub word : CsrName → Csr → ℕ
word CsrName.mscratch c = c.mscratch
word CsrName.misa c = c.misa
word CsrName.mvendorid c = c.mvendorid
word CsrName.marchid c = c.marchid
word CsrName.mimpid c = c.mimpid
word CsrName.mhartid c = c.mhartid
word CsrName.mconfigptr c = c.mconfigptr
word CsrName.mepc c = c.mepc
word CsrName.mcause c = c.mcause
word CsrName.mtval c = c.mtval
word CsrName.mip c = c.mip
word CsrName.mie c = c.mie
word CsrName.mtvec c = c.mtvec
word CsrName.mcycles_low c = c.mcycles % 2 ^ 32
word CsrName.mcycles_high c = c.mcycles / 2 ^ 32
word CsrName.minstret_low c = c.minstret % 2 ^ 32
word CsrName.minstret_high c = c.minstret / 2 ^ 32
word CsrName.mstatus_low c = low_word c.mstatus
word CsrName.mstatus_high c = high_word c.mstatus

-- The member with that word stored; `mstatus` without what the caller does next.
unfoldable pub set_word : CsrName → Csr → ℕ → Csr
set_word CsrName.mscratch c w = record c { mscratch = w }
set_word CsrName.misa c w = record c { misa = w }
set_word CsrName.mvendorid c w = record c { mvendorid = w }
set_word CsrName.marchid c w = record c { marchid = w }
set_word CsrName.mimpid c w = record c { mimpid = w }
set_word CsrName.mhartid c w = record c { mhartid = w }
set_word CsrName.mconfigptr c w = record c { mconfigptr = w }
set_word CsrName.mepc c w = record c { mepc = w }
set_word CsrName.mcause c w = record c { mcause = w }
set_word CsrName.mtval c w = record c { mtval = w }
set_word CsrName.mip c w = record c { mip = w }
set_word CsrName.mie c w = record c { mie = w }
set_word CsrName.mtvec c w = record c { mtvec = w }
set_word CsrName.mcycles_low c w = record c { mcycles = c.mcycles / 2 ^ 32 * 2 ^ 32 + w }
set_word CsrName.mcycles_high c w = record c { mcycles = w * 2 ^ 32 + c.mcycles % 2 ^ 32 }
set_word CsrName.minstret_low c w = record c { minstret = c.minstret / 2 ^ 32 * 2 ^ 32 + w }
set_word CsrName.minstret_high c w = record c { minstret = w * 2 ^ 32 + c.minstret % 2 ^ 32 }
set_word CsrName.mstatus_low c w = record c { mstatus = set_low_word c.mstatus w }
set_word CsrName.mstatus_high c w = record c { mstatus = set_high_word c.mstatus w }

-- What the lambda `write` stores.
unfoldable pub masked : ℕ → ℕ → ℕ → ℕ
masked mask value dst = bit_or (bit_and dst (not32 mask)) (bit_and value mask)

-- `[write_value, write_mask]`.
unfoldable pub write_value_mask : WriteMode → ℕ → ℕ × ℕ
write_value_mask WriteMode.none v = (0, 0)
write_value_mask WriteMode.overwrite v = (v, 0xffff_ffff)
write_value_mask WriteMode.clear v = (0, v)
write_value_mask WriteMode.set v = (0xffff_ffff, v)

abbrev pub is_none : WriteMode → Bool
is_none WriteMode.none = true
is_none _ = false

unfoldable pub force_legal_mstatus : Csr → Csr
force_legal_mstatus c = record c { mstatus = force_legal c.mstatus }

-- One `case`: the new registers and the value returned. `mstatus` is made legal after the write,
-- and read after that; the others are read before the write.
unfoldable pub write_case : CsrName → Csr → ℕ → ℕ → Csr × ℕ
write_case CsrName.mstatus_low c mask v =
    let c' =
      force_legal_mstatus
        (set_word CsrName.mstatus_low c (masked mask v (word CsrName.mstatus_low c))) in
    (c', word CsrName.mstatus_low c')
write_case CsrName.mstatus_high c mask v =
    let c' =
      force_legal_mstatus
        (set_word CsrName.mstatus_high c (masked mask v (word CsrName.mstatus_high c))) in
    (c', word CsrName.mstatus_high c')
write_case name c mask v = (set_word name c (masked mask v (word name c)), word name c)

-- The `switch`.
unfoldable pub dispatch : Option CsrName → Csr → ℕ → ℕ → Csr × Expected ℕ CsrError
dispatch Option.none c mask v = (c, unexpected not_exists)
dispatch (some name) c mask v = let (c', r) = write_case name c mask v in (c', ok r)

-- `CSR_module::operator()`.
unfoldable pub access : Csr → CsrAccessInfo → Csr × Expected ℕ CsrError
access c info =
    let (write_value, write_mask) = write_value_mask info.write_mode info.write_value in
    let writable = not (slice 11 10 info.address == 0b11) in
    if not writable && not (write_mask == 0)
    then (c, unexpected write_readonly)
    else if not info.read && is_none info.write_mode
    then (c, ok 0)
    else dispatch (find_name info.address) c write_mask write_value

-- `CSR_module::tick`.
unfoldable pub tick : Csr → Csr
tick c = record c { mcycles = u64 (c.mcycles + 1); minstret = u64 (c.minstret + 1) }
