-- ===== src/GdbStub/Expression/Run/Jumps.antt =====
-- lib/gdb-stub/expression.cpp: byte sequences without backward jumps.
use simple_riscv_emulator.Common.{
  ℕ, zero, suc, ◌+◌, ◌-◌, ◌≤◌, ◌<◌, Bool, true, false, not, ◌&&◌, ◌||◌, ◌==◌, ltb, some, none, List,
  [], ◌∷◌, get_elem?, ◌≡◌, refl, arith,
}
use simple_riscv_emulator.GdbStub.Expression.Bytecode.{
  Bytecode, from_u8, ext, zero_ext, pick, if_goto, goto, const8, const16, const32, reg,
}
use simple_riscv_emulator.GdbStub.Expression.Step.{cast16}

-- How many bytes an operation takes with its operand.
unfoldable pub operation_size : Bytecode → ℕ
operation_size ext = 2
operation_size zero_ext = 2
operation_size pick = 2
operation_size const8 = 2
operation_size if_goto = 3
operation_size goto = 3
operation_size const16 = 3
operation_size reg = 3
operation_size const32 = 5
operation_size _ = 1

-- The same for a byte; one that names no operation ends the loop.
unfoldable pub size_of : ℕ → ℕ
unfolding operation_size
size_of op = elim (from_u8 op) [ none ↦ 1 | some b ↦ operation_size b ]

-- Whether an operation starts at a place, when the operations follow each other from the byte
-- behind the first `skip` ones; behind the last byte every place counts.
unfoldable pub is_start_from : ℕ → List ℕ → ℕ → Bool
unfolding size_of
is_start_from skip [] i = true
is_start_from zero (op ∷ rest) zero = true
is_start_from zero (op ∷ rest) (suc i) = is_start_from (size_of op - 1) rest i
is_start_from (suc skip) (b ∷ rest) zero = false
is_start_from (suc skip) (b ∷ rest) (suc i) = is_start_from skip rest i

unfoldable pub is_start : List ℕ → ℕ → Bool
unfolding is_start_from
is_start code i = is_start_from 0 code i

-- The byte is one of the two jumps.
abbrev pub is_jump : ℕ → Bool
is_jump op = op == 0x20 || op == 0x21

-- Whether the two bytes behind a jump at `pc` name a later place where an operation starts; without
-- two bytes, the jump fails.
unfoldable pub is_target_after : List ℕ → ℕ → List ℕ → Bool
unfolding is_start
is_target_after code pc [] = true
is_target_after code pc (b1 ∷ []) = true
is_target_after code pc (b1 ∷ b0 ∷ rest) = ltb pc (cast16 b0 b1) && is_start code (cast16 b0 b1)

unfoldable pub is_forward_from : List ℕ → ℕ → ℕ → List ℕ → Bool
unfolding is_target_after size_of
is_forward_from code pc skip [] = true
is_forward_from code pc zero (op ∷ rest) =
    (not (is_jump op) || is_target_after code pc rest)
    && is_forward_from code (pc + 1) (size_of op - 1) rest
is_forward_from code pc (suc skip) (b ∷ rest) = is_forward_from code (pc + 1) skip rest

-- Every jump among the operations leads to the start of a later one, or behind the last byte.
unfoldable pub is_forward : List ℕ → Bool
unfolding is_forward_from
is_forward code = is_forward_from code 0 0 code

is_target_after_sound :
    (code : List ℕ) (pc b1 b0 : ℕ) (rest : List ℕ)
    → is_target_after code pc rest ≡ true
    → get_elem? rest 0 ≡ some b1
    → get_elem? rest 1 ≡ some b0
    → (pc < cast16 b0 b1) × (is_start code (cast16 b0 b1) ≡ true)
unfolding is_target_after
is_target_after_sound code pc b1 b0 [] t e1 e0 = ground arith
is_target_after_sound code pc b1 b0 (x ∷ []) t e1 e0 = ground arith
is_target_after_sound code pc b1 b0 (x ∷ y ∷ rest) t e1 e0 = ground arith

pub is_forward_from_sound :
    (code : List ℕ) (pc skip : ℕ) (tail : List ℕ) (i op b1 b0 : ℕ)
    → is_forward_from code pc skip tail ≡ true
    → is_start_from skip tail i ≡ true
    → get_elem? tail i ≡ some op
    → get_elem? tail (suc i) ≡ some b1
    → get_elem? tail (suc (suc i)) ≡ some b0
    → is_jump op ≡ true
    → (pc + i < cast16 b0 b1) × (is_start code (cast16 b0 b1) ≡ true)
unfolding is_forward_from is_start_from
is_forward_from_sound code pc skip [] i op b1 b0 f s e e1 e0 j = ground arith
is_forward_from_sound code pc zero (x ∷ tail) zero op b1 b0 f s e e1 e0 j =
    ground (arith, is_target_after_sound code pc b1 b0 tail (ground arith) e1 e0)
is_forward_from_sound code pc zero (x ∷ tail) (suc i) op b1 b0 f s e e1 e0 j =
    let (after, start) =
      is_forward_from_sound code (pc + 1) (size_of x - 1) tail i op b1 b0 (ground arith) s e e1 e0
        j in
    (omega (arith, after), start)
is_forward_from_sound code pc (suc skip) (x ∷ tail) zero op b1 b0 f s e e1 e0 j = ground arith
is_forward_from_sound code pc (suc skip) (x ∷ tail) (suc i) op b1 b0 f s e e1 e0 j =
    let (after, start) = is_forward_from_sound code (pc + 1) skip tail i op b1 b0 f s e e1 e0 j in
    (omega (arith, after), start)

pub operation_size_pos : (b : Bytecode) → 1 ≤ operation_size b
unfolding operation_size
operation_size_pos b = ground arith

size_of_pos : (op : ℕ) → 1 ≤ size_of op
unfolding size_of
size_of_pos op = elim (from_u8 op) as (λ o. 1 ≤ (elim o [ none ↦ 1 | some b ↦ operation_size b ])) [
  | none ↦ omega arith
  | some b ↦ operation_size_pos b
]

pub is_start_from_skip : (skip : ℕ) (tail : List ℕ) → is_start_from skip tail skip ≡ true
unfolding is_start_from
is_start_from_skip skip [] = refl
is_start_from_skip zero (b ∷ tail) = refl
is_start_from_skip (suc skip) (b ∷ tail) = is_start_from_skip skip tail

-- Behind an operation the next one starts.
pub is_start_from_next :
    (skip : ℕ) (tail : List ℕ) (i op : ℕ)
    → is_start_from skip tail i ≡ true
    → get_elem? tail i ≡ some op
    → is_start_from skip tail (i + size_of op) ≡ true
unfolding is_start_from
is_start_from_next skip [] i op s e = refl
is_start_from_next zero (x ∷ tail) zero op s e =
    let same : x ≡ op = ground arith in
    let next : 0 + size_of op ≡ suc (size_of op - 1) = omega (arith, size_of_pos op) in
    rw (next, same) (is_start_from_skip (size_of op - 1) tail)
is_start_from_next zero (x ∷ tail) (suc i) op s e =
    let next : suc i + size_of op ≡ suc (i + size_of op) = omega arith in
    rw next (is_start_from_next (size_of x - 1) tail i op s e)
is_start_from_next (suc skip) (x ∷ tail) zero op s e = ground arith
is_start_from_next (suc skip) (x ∷ tail) (suc i) op s e =
    let next : suc i + size_of op ≡ suc (i + size_of op) = omega arith in
    rw next (is_start_from_next skip tail i op s e)
