-- ===== src/Core/LoadStore/Lanes.antt =====
-- The byte lanes of a store: which mask it sends, and where the bytes of its value lie.
use simple_riscv_emulator.Common.{
  below_four, ℕ, ◌+◌, ◌-◌, ◌*◌, ◌%◌, ◌^◌, ◌≤◌, ◌<◌, ◌≡◌, refl, arith, ◌&&◌, ◌==◌, leb, ltb, u32,
  ◌<<<◌, ap, some,
}
use simple_riscv_emulator.Bitset.{take_bit}
use simple_riscv_emulator.Core.Memory.{Funct, byte_of}
use simple_riscv_emulator.Core.LoadStore.{store_mask}

-- The number of bytes that a store writes; 0 for what is no store.
abbrev pub store_size : Funct → ℕ
store_size Funct.store_byte = 1
store_size Funct.store_halfword = 2
store_size Funct.store_word = 4
store_size _ = 0

module _ {ℓ} (P : ℕ → ℕ → Type ℓ) where
  -- A pair of numbers below four, case by case.
  below_four_pairs :
      P 0 0
        × P 0 1
        × P 0 2
        × P 0 3
        × P 1 0
        × P 1 1
        × P 1 2
        × P 1 3
        × P 2 0
        × P 2 1
        × P 2 2
        × P 2 3
        × P 3 0
        × P 3 1
        × P 3 2
        × P 3 3
      → (i j : ℕ) → i < 4
      → j < 4
      → P i j
  below_four_pairs t i j hi hj =
      below_four (λ a. P a j) (below_four (P 0) t.0 t.1 t.2 t.3 j hj)
        (below_four (P 1) t.4 t.5 t.6 t.7 j hj) (below_four (P 2) t.8 t.9 t.10 t.11 j hj)
        (below_four (P 3) t.12 t.13 t.14 t.15 j hj) i hi

-- Byte `k` of the shifted value is byte `k - offset` of the value.
pub shifted_byte :
    (v offset k : ℕ)
    → offset < 4
    → k < 4
    → offset ≤ k
    → byte_of k (u32 (v <<< (offset * 8))) ≡ byte_of (k - offset) v
shifted_byte v =
    below_four_pairs (λ o k. o ≤ k → byte_of k (u32 (v <<< (o * 8))) ≡ byte_of (k - o) v)
      (
        λ h. omega arith,
        λ h. omega arith,
        λ h. omega arith,
        λ h. omega arith,
        λ h. omega arith,
        λ h. omega arith,
        λ h. omega arith,
        λ h. omega arith,
        λ h. omega arith,
        λ h. omega arith,
        λ h. omega arith,
        λ h. omega arith,
        λ h. omega arith,
        λ h. omega arith,
        λ h. omega arith,
        λ h. omega arith,
      )

-- The mask of an aligned store has the bits from the offset on, one for each byte.
abbrev pub mask_of : ℕ → ℕ → ℕ
mask_of n offset = (2 ^ n - 1) * 2 ^ offset % 2 ^ 4

pub store_mask-mask_of :
    (f : Funct) (offset : ℕ)
    → 0 < store_size f
    → offset < 4
    → offset % store_size f ≡ 0
    → store_mask f offset ≡ some (mask_of (store_size f) offset)
unfolding store_mask
store_mask-mask_of Funct.store_byte offset h k e = ap some (omega arith)
store_mask-mask_of Funct.store_halfword offset h k e = ap some (omega arith)
store_mask-mask_of Funct.store_word offset h k e = let z : offset ≡ 0 = omega arith in rw z refl
store_mask-mask_of _ offset h k e = absurd (omega arith)

abbrev IsLane : ℕ → ℕ → ℕ → Type 0
IsLane n o k = (take_bit k (mask_of n o) == 1) ≡ (leb o k && ltb k (o + n))

pub take_bit-mask_of :
    (f : Funct)
    → 0 < store_size f
    → (offset k : ℕ) → offset < 4
    → k < 4
    → IsLane (store_size f) offset k
take_bit-mask_of Funct.store_byte h =
    below_four_pairs (IsLane 1) (
      refl, refl, refl, refl, refl, refl, refl, refl, refl, refl, refl, refl, refl, refl, refl,
      refl,
    )
take_bit-mask_of Funct.store_halfword h =
    below_four_pairs (IsLane 2) (
      refl, refl, refl, refl, refl, refl, refl, refl, refl, refl, refl, refl, refl, refl, refl,
      refl,
    )
take_bit-mask_of Funct.store_word h =
    below_four_pairs (IsLane 4) (
      refl, refl, refl, refl, refl, refl, refl, refl, refl, refl, refl, refl, refl, refl, refl,
      refl,
    )
take_bit-mask_of _ h = absurd (omega arith)
