-- ===== src/Core/Inst/Immediates.antt =====
-- The immediates of the instruction formats, read back from words that are put together as the
-- RISC-V manual lays them out.
use simple_riscv_emulator.Common.{ℕ, ◌+◌, ◌-◌, ◌*◌, ◌/◌, ◌%◌, ◌^◌, ◌≤◌, ◌<◌, ◌≡◌, ◌⊎◌, arith, ap}
use simple_riscv_emulator.Bitset.{sext, concat}
use simple_riscv_emulator.Bitset.Laws.{sext-add, concat-add}
use simple_riscv_emulator.Core.Inst.{stype, btype, jtype}

-- A word whose value as a signed number has `w + 1` bits.
abbrev pub IsSigned : ℕ → ℕ → Type 0
IsSigned w imm = (imm < 2 ^ w) ⊎ (2 ^ 32 - 2 ^ w ≤ imm) × (imm < 2 ^ 32)

pub sext-12 : (imm : ℕ) → IsSigned 11 imm → sext 12 32 (imm % 2 ^ 12) ≡ imm
sext-12 imm h = ground (arith, sext-add 12 32 (imm % 2 ^ 12))

pub sext-13 : (imm : ℕ) → IsSigned 12 imm → sext 13 32 (imm % 2 ^ 13) ≡ imm
sext-13 imm h = ground (arith, sext-add 13 32 (imm % 2 ^ 13))

pub sext-21 : (imm : ℕ) → IsSigned 20 imm → sext 21 32 (imm % 2 ^ 21) ≡ imm
sext-21 imm h = ground (arith, sext-add 21 32 (imm % 2 ^ 21))

-- The immediates before the sign extension, as sums of the fields.
abbrev pub stype_bits : ℕ → ℕ
stype_bits w = w / 2 ^ 25 % 2 ^ 7 * 2 ^ 5 + w / 2 ^ 7 % 2 ^ 5

abbrev pub btype_bits : ℕ → ℕ
btype_bits w =
    w / 2 ^ 31 % 2 * 2 ^ 12
    + w / 2 ^ 7 % 2 * 2 ^ 11
    + w / 2 ^ 25 % 2 ^ 6 * 2 ^ 5
    + w / 2 ^ 8 % 2 ^ 4 * 2

abbrev pub jtype_bits : ℕ → ℕ
jtype_bits w =
    w / 2 ^ 31 % 2 * 2 ^ 20
    + w / 2 ^ 12 % 2 ^ 8 * 2 ^ 12
    + w / 2 ^ 20 % 2 * 2 ^ 11
    + w / 2 ^ 21 % 2 ^ 10 * 2

pub stype-imm : (w : ℕ) → (stype w).imm ≡ sext 12 32 (stype_bits w)
unfolding stype
stype-imm w =
    ap (sext 12 32)
      (concat-add 7 5 (w / 2 ^ 25 % 2 ^ 7) (w / 2 ^ 7 % 2 ^ 5) (omega arith) (omega arith))

concat_b :
    (s e u l : ℕ)
    → s < 2
    → e < 2
    → u < 2 ^ 6
    → l < 2 ^ 4
    → concat 12 1 (concat 8 4 (concat 2 6 (concat 1 1 s e) u) l) 0
      ≡ s * 2 ^ 12 + e * 2 ^ 11 + u * 2 ^ 5 + l * 2
concat_b s e u l hs he hu hl =
    rw
      (
        concat-add 1 1 s e hs he,
        concat-add 2 6 (s * 2 ^ 1 + e) u (omega arith) hu,
        concat-add 8 4 ((s * 2 ^ 1 + e) * 2 ^ 6 + u) l (omega arith) hl,
        concat-add 12 1 (((s * 2 ^ 1 + e) * 2 ^ 6 + u) * 2 ^ 4 + l) 0 (omega arith) (omega arith),
      )
      (omega arith)

concat_j :
    (s m e l : ℕ)
    → s < 2
    → m < 2 ^ 8
    → e < 2
    → l < 2 ^ 10
    → concat 20 1 (concat 10 10 (concat 9 1 (concat 1 8 s m) e) l) 0
      ≡ s * 2 ^ 20 + m * 2 ^ 12 + e * 2 ^ 11 + l * 2
concat_j s m e l hs hm he hl =
    rw
      (
        concat-add 1 8 s m hs hm,
        concat-add 9 1 (s * 2 ^ 8 + m) e (omega arith) he,
        concat-add 10 10 ((s * 2 ^ 8 + m) * 2 ^ 1 + e) l (omega arith) hl,
        concat-add 20 1 (((s * 2 ^ 8 + m) * 2 ^ 1 + e) * 2 ^ 10 + l) 0 (omega arith) (omega arith),
      )
      (omega arith)

pub btype-imm : (w : ℕ) → (btype w).imm ≡ sext 13 32 (btype_bits w)
unfolding btype
btype-imm w = ap (sext 13 32) (
    concat_b (w / 2 ^ 31 % 2) (w / 2 ^ 7 % 2) (w / 2 ^ 25 % 2 ^ 6) (w / 2 ^ 8 % 2 ^ 4) (omega arith)
      (omega arith) (omega arith) (omega arith))

pub jtype-imm : (w : ℕ) → (jtype w).imm ≡ sext 21 32 (jtype_bits w)
unfolding jtype
jtype-imm w = ap (sext 21 32) (
    concat_j (w / 2 ^ 31 % 2) (w / 2 ^ 12 % 2 ^ 8) (w / 2 ^ 20 % 2) (w / 2 ^ 21 % 2 ^ 10)
      (omega arith) (omega arith) (omega arith) (omega arith))
