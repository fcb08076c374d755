-- ===== src/GdbStub/Command/Registers.antt =====
-- lib/gdb-stub/command.cpp and lib/gdb-stub/response.cpp: the registers that `g` reports, sent back
-- with `G`, and the one that `p` reports, sent back with `P`.
use mathlib.Core.List.{flat_map}
use simple_riscv_emulator.Common.{
  ℕ, zero, suc, ltb, ◌≤◌, ◌∙◌, ◌+◌, ◌*◌, ◌/◌, ◌%◌, ◌^◌, ◌<◌, Bool, true, false, ◌&&◌, Option, none,
  some, List, [], ◌∷◌, length, map, ◌==◌, u16, ◌≡◌, ◌≢◌, refl, ap, arith,
}
use simple_riscv_emulator.GdbStub.{hex_digit, chunks, text_eq}
use simple_riscv_emulator.GdbStub.OrderedMap.{to_map}
use simple_riscv_emulator.GdbStub.OrderedMap.Lookup.{IsOrder, first, first-to_map}
use simple_riscv_emulator.GdbStub.Command.{parsed, or_fail, write_register}
use simple_riscv_emulator.GdbStub.Command.Hex.{is_empty}
use simple_riscv_emulator.GdbStub.Command.Parse.{
  parse, parse_write_registers, register_values, no_value,
}
use simple_riscv_emulator.GdbStub.Command.Digits.{parse_hex-hex_word}
use simple_riscv_emulator.GdbStub.Response.{
  hex_word, register_text, byteswap, register_content, to_string,
}

-- The values, each swapped and under its number.
unfoldable pub numbered : ℕ → List (Option ℕ) → List (ℕ × ℕ)
numbered i [] = []
numbered i (none ∷ values) = numbered (i + 1) values
numbered i (some value ∷ values) = (u16 i, byteswap value) ∷ numbered (i + 1) values

-- The value at a place, with its bytes in the opposite order.
unfoldable pub swapped_at : List (Option ℕ) → ℕ → Option ℕ
swapped_at [] i = none
swapped_at (none ∷ values) zero = none
swapped_at (some value ∷ values) zero = some (byteswap value)
swapped_at (o ∷ values) (suc i) = swapped_at values i

ltb-IsOrder : IsOrder ltb ◌==◌
ltb-IsOrder = record {
  irreflexive = λ a. ground arith;
  transitive = λ a b c h k. ground arith;
  connected = λ a b h k. ground arith;
  same_refl = λ a. ground arith;
  same_sound = λ a b h. ground arith;
}

first-numbered_below :
    (i key : ℕ) (values : List (Option ℕ))
    → key < i
    → i + length values ≤ 2 ^ 16
    → first ◌==◌ key (numbered i values) ≡ none
unfolding first numbered
first-numbered_below i key [] h l = refl
first-numbered_below i key (none ∷ values) h l =
    first-numbered_below (i + 1) key values (omega arith) (omega arith)
first-numbered_below i key (some v ∷ values) h l =
    ground (arith, first-numbered_below (i + 1) key values (omega arith) (omega arith))

first-numbered :
    (i d : ℕ) (values : List (Option ℕ))
    → i + length values ≤ 2 ^ 16
    → first ◌==◌ (i + d) (numbered i values) ≡ swapped_at values d
unfolding first numbered swapped_at
first-numbered i d [] l = refl
first-numbered i zero (none ∷ values) l =
    first-numbered_below (i + 1) (i + 0) values (omega arith) (omega arith)
first-numbered i zero (some v ∷ values) l = ground arith
first-numbered i (suc d) (none ∷ values) l =
    let next : i + suc d ≡ i + 1 + d = omega arith in
    rw next (first-numbered (i + 1) d values (omega arith))
first-numbered i (suc d) (some v ∷ values) l =
    let next : i + suc d ≡ i + 1 + d = omega arith in
    let later = ap (λ k. first ◌==◌ k (numbered (i + 1) values)) next in
    ground (arith, later, first-numbered (i + 1) d values (omega arith))

chunks-register_text :
    (values : List (Option ℕ))
    → chunks 8 (length values) (flat_map register_text values) ≡ map register_text values
unfolding flat_map register_text hex_word
chunks-register_text [] = refl
chunks-register_text (none ∷ values) = ap (λ l. no_value ∷ l) (chunks-register_text values)
chunks-register_text (some v ∷ values) =
    ap (λ l. hex_word (byteswap v) ∷ l) (chunks-register_text values)

length-register_text :
    (values : List (Option ℕ)) → length (flat_map register_text values) ≡ 8 * length values
unfolding flat_map register_text hex_word
length-register_text [] = refl
length-register_text (none ∷ values) = omega (arith, length-register_text values)
length-register_text (some v ∷ values) = omega (arith, length-register_text values)

register_text-is_empty :
    (values : List (Option ℕ)) → values ≢ [] → is_empty (flat_map register_text values) ≡ false
unfolding flat_map register_text hex_word
register_text-is_empty [] h = absurd (h refl)
register_text-is_empty (none ∷ values) h = refl
register_text-is_empty (some v ∷ values) h = refl

digit-ne-x : (n : ℕ) (b : Bool) → n < 16 → ((hex_digit n == b'x') && b) ≡ false
digit-ne-x n b h = ground arith

hex_word-ne-no_value : (w : ℕ) → text_eq (hex_word w) no_value ≡ false
unfolding hex_word
hex_word-ne-no_value w = digit-ne-x (w / 2 ^ 24 % 2 ^ 8 / 16) _ (omega arith)

byteswap-lt : (w : ℕ) → byteswap w < 2 ^ 32
byteswap-lt w = omega arith

module _ (garbage : ℕ) where
  register_values-text :
      (i : ℕ) (values : List (Option ℕ))
      → register_values garbage i (map register_text values) ≡ some (numbered i values)
  unfolding register_values register_text numbered
  register_values-text i [] = refl
  register_values-text i (none ∷ values) = register_values-text (i + 1) values
  register_values-text i (some v ∷ values) =
      rw
        (
          hex_word-ne-no_value (byteswap v),
          parse_hex-hex_word garbage (byteswap v) (byteswap-lt v),
          register_values-text (i + 1) values,
        )
        refl

  parse_write_registers-text :
      (values : List (Option ℕ))
      → values ≢ []
      → parse_write_registers garbage (flat_map register_text values)
        ≡ parsed (write_register (to_map ltb [] (numbered 0 values)))
  unfolding parse_write_registers or_fail
  parse_write_registers-text values ne =
      let n = length values in
      let size = length-register_text values in
      let whole : (8 * n % 8 == 0) ≡ true = ground arith in
      let count : 8 * n / 8 ≡ n = omega arith in
      rw
        (
          parse_write_registers,
          register_text-is_empty values ne,
          size,
          whole,
          count,
          chunks-register_text values,
          register_values-text 0 values,
        )
        refl

  parse-register_content_text :
      (values : List (Option ℕ))
      → values ≢ []
      → parse garbage (b'G' ∷ to_string (register_content values))
        ≡ parsed (write_register (to_map ltb [] (numbered 0 values)))
  unfolding to_string parse flat_map register_text hex_word
  parse-register_content_text [] h = absurd (h refl)
  parse-register_content_text (none ∷ values) h = parse_write_registers-text (none ∷ values) h
  parse-register_content_text (some v ∷ values) h = parse_write_registers-text (some v ∷ values) h

  -- What `g` reports of one to 2 ^ 16 registers, sent back with `G`, is read as a map that holds
  -- under each place in the list, counted from 0, the value reported there with its bytes in the
  -- opposite order, and nothing under a place without a value or behind the list. The place is not
  -- the number of a CSR, which `g` reports behind the 33 registers.
  pub parse-register_content :
      (values : List (Option ℕ))
      → values ≢ []
      → length values ≤ 2 ^ 16
      → (m : List (ℕ × ℕ)) × (parse garbage (b'G' ∷ to_string (register_content values))
          ≡ parsed (write_register m))
        × ((i : ℕ) → first ◌==◌ i m ≡ swapped_at values i)
  parse-register_content values h l = (
    to_map ltb [] (numbered 0 values),
    parse-register_content_text values h,
    λ i.
        first-to_map ltb ◌==◌ ltb-IsOrder i (numbered 0 values)
        ∙ ap (λ k. first ◌==◌ k (numbered 0 values)) (omega arith)
        ∙ first-numbered 0 i values (omega arith),
  )
