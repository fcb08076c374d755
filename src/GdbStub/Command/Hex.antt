-- ===== src/GdbStub/Command/Hex.antt =====
-- lib/gdb-stub/command.cpp: the helpers of the parsers, `parse_hex`, `parse_u32_pair`, `split_once`.
use simple_riscv_emulator.Common.{
  ℕ, ◌+◌, ◌*◌, ◌^◌, Bool, true, false, Option, none, some, List, [], ◌∷◌, ltb, if◌then◌else◌, u8,
}
use simple_riscv_emulator.GdbStub.{isxdigit, hex_value, find_delim, ◌>>=◌}

-- `std::from_chars` to base 16: the value of the digits after `accum`, if all characters are digits.
unfoldable pub digits_from : ℕ → List ℕ → Option ℕ
digits_from accum [] = some accum
digits_from accum (c ∷ rest) =
    let later = digits_from (accum * 16 + hex_value c) rest in if isxdigit c then later else none

module _ (garbage : ℕ) where
  -- `from_chars` leaves its argument alone if the value does not fit, and `parse_hex` looks only at
  -- the place where it stopped: the variable then keeps what it held, `garbage`.
  unfoldable pub fit : Option ℕ → Option ℕ
  fit none = none
  fit (some value) = some (if ltb value (2 ^ 32) then value else garbage)

  -- Both overloads of `parse_hex`.
  unfoldable pub parse_hex : List ℕ → Option ℕ
  unfolding fit digits_from
  parse_hex [] = none
  parse_hex (c ∷ rest) = fit (digits_from 0 (c ∷ rest))

  unfoldable pub pair_of : Option ℕ → Option ℕ → Option (ℕ × ℕ)
  pair_of (some a) (some b) = some (a, b)
  pair_of none b = none
  pair_of (some a) none = none

  unfoldable pub parse_u32_pair : List ℕ → Option (ℕ × ℕ)
  unfolding parse_hex pair_of find_delim
  parse_u32_pair str = elim (find_delim b',' str) [
    | none ↦ none
    | some (first, second) ↦ pair_of (parse_hex first) (parse_hex second)
  ]

  -- Bytes of two digits each: `views::chunk(2)`, `parse_hex` and `all_of`.
  unfoldable pub parse_bytes : List (List ℕ) → Option (List ℕ)
  unfolding parse_hex
  parse_bytes [] = some []
  parse_bytes (part ∷ parts) = do
    byte ← parse_hex part
    rest ← parse_bytes parts
    some (u8 byte ∷ rest)

-- Two empty texts if the delimiter is not found.
unfoldable pub split_once : List ℕ → ℕ → List ℕ × List ℕ
unfolding find_delim
split_once str delim = elim (find_delim delim str) [ none ↦ ([], []) | some parts ↦ parts ]

abbrev pub is_empty {ℓ} : {A : Type ℓ} → List A → Bool
is_empty [] = true
is_empty (x ∷ xs) = false
