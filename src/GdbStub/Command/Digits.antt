-- ===== src/GdbStub/Command/Digits.antt =====
-- lib/gdb-stub/command.cpp: `parse_hex` and its companions on printed hexadecimal digits.
use mathlib.Core.List.{flat_map, append-nil}
use simple_riscv_emulator.Common.{
  ℕ, ◌+◌, ◌*◌, ◌/◌, ◌%◌, ◌^◌, ◌<◌, true, false, some, List, [], ◌∷◌, ◌++◌, length, map, ◌==◌, u8,
  ◌≡◌, ◌≢◌, refl, sym, ap, ◌∙◌, arith,
}
use simple_riscv_emulator.GdbStub.{
  All, All-append, isxdigit, hex_digit, hex_byte, isxdigit-hex_digit, hex_value-hex_digit,
  find_delim, put_first, chunks,
}
use simple_riscv_emulator.GdbStub.Command.Hex.{
  digits_from, parse_hex, fit, parse_u32_pair, pair_of, parse_bytes,
}
use simple_riscv_emulator.GdbStub.Response.{hex_word}

-- A digit at a time.
digits_from-hex_digit :
    (accum n : ℕ) (rest : List ℕ)
    → n < 16
    → digits_from accum (hex_digit n ∷ rest) ≡ digits_from (accum * 16 + n) rest
unfolding digits_from
digits_from-hex_digit accum n rest h = rw (isxdigit-hex_digit n h, hex_value-hex_digit n h) refl

digits_from-hex_byte :
    (accum n : ℕ) (rest : List ℕ)
    → n < 256
    → digits_from accum (hex_byte n ++ rest) ≡ digits_from (accum * 256 + n) rest
digits_from-hex_byte accum n rest h =
    let value : (accum * 16 + n / 16) * 16 + n % 16 ≡ accum * 256 + n = omega arith in
    digits_from-hex_digit accum (n / 16) (hex_digit (n % 16) ∷ rest) (omega arith)
    ∙ digits_from-hex_digit (accum * 16 + n / 16) (n % 16) rest (omega arith)
    ∙ ap (λ a. digits_from a rest) value

digits_from-hex_word :
    (w : ℕ) (rest : List ℕ) → w < 2 ^ 32 → digits_from 0 (hex_word w ++ rest) ≡ digits_from w rest
unfolding hex_word
digits_from-hex_word w rest h =
    let b3 = w / 2 ^ 24 % 2 ^ 8 in
    let b2 = w / 2 ^ 16 % 2 ^ 8 in
    let b1 = w / 2 ^ 8 % 2 ^ 8 in
    let b0 = w % 2 ^ 8 in
    let value : ((((0 * 256 + b3) * 256 + b2) * 256 + b1) * 256 + b0) ≡ w = omega arith in
    digits_from-hex_byte 0 b3 (hex_byte b2 ++ (hex_byte b1 ++ (hex_byte b0 ++ rest))) (omega arith)
    ∙ digits_from-hex_byte (0 * 256 + b3) b2 (hex_byte b1 ++ (hex_byte b0 ++ rest)) (omega arith)
    ∙ digits_from-hex_byte ((0 * 256 + b3) * 256 + b2) b1 (hex_byte b0 ++ rest) (omega arith)
    ∙ digits_from-hex_byte (((0 * 256 + b3) * 256 + b2) * 256 + b1) b0 rest (omega arith)
    ∙ ap (λ a. digits_from a rest) value

-- A text of digits.
abbrev pub IsDigits : List ℕ → Type 0
IsDigits = All (λ c. isxdigit c ≡ true)

hex_byte-IsDigits : (n : ℕ) → n < 256 → IsDigits (hex_byte n)
hex_byte-IsDigits n h =
    (isxdigit-hex_digit (n / 16) (omega arith), (isxdigit-hex_digit (n % 16) (omega arith), tt))

pub hex_bytes-IsDigits :
    (bytes : List ℕ) → All (λ b. b < 256) bytes → IsDigits (flat_map hex_byte bytes)
unfolding flat_map
hex_bytes-IsDigits [] h = tt
hex_bytes-IsDigits (b ∷ bytes) (h, hs) =
    All-append _ (hex_byte b) (flat_map hex_byte bytes) (hex_byte-IsDigits b h)
      (hex_bytes-IsDigits bytes hs)

pub hex_word-IsDigits : (w : ℕ) → IsDigits (hex_word w)
unfolding hex_word flat_map
hex_word-IsDigits w =
    hex_bytes-IsDigits
      (w / 2 ^ 24 % 2 ^ 8 ∷ w / 2 ^ 16 % 2 ^ 8 ∷ w / 2 ^ 8 % 2 ^ 8 ∷ w % 2 ^ 8 ∷ [])
      (omega arith, (omega arith, (omega arith, (omega arith, tt))))

-- A text ends where the delimiter stands.
pub find_delim-Lacks :
    (delim : ℕ) (s rest : List ℕ)
    → All (λ c. c ≢ delim) s
    → find_delim delim (s ++ delim ∷ rest) ≡ some (s, rest)
unfolding find_delim
find_delim-Lacks delim [] rest h = let same : (delim == delim) ≡ true = ground arith in rw same refl
find_delim-Lacks delim (c ∷ s) rest (h, hs) =
    let ne : (c == delim) ≡ false = ground arith in
    rw ne (ap (put_first c) (find_delim-Lacks delim s rest hs))

-- No digit is a delimiter.
pub IsDigits-Lacks :
    (delim : ℕ) (s : List ℕ) → isxdigit delim ≡ false → IsDigits s → All (λ c. c ≢ delim) s
IsDigits-Lacks delim [] d h = tt
IsDigits-Lacks delim (c ∷ s) d (h, hs) =
    (λ e. digit_other c delim h d e, IsDigits-Lacks delim s d hs)
  where
    digit_other : (c delim : ℕ) → isxdigit c ≡ true → isxdigit delim ≡ false → c ≡ delim → ⊥
    digit_other c delim h d e = ground arith

-- The texts of bytes, cut into pairs of digits.
pub chunks-hex_bytes :
    (bytes : List ℕ) → chunks 2 (length bytes) (flat_map hex_byte bytes) ≡ map hex_byte bytes
unfolding flat_map
chunks-hex_bytes [] = refl
chunks-hex_bytes (b ∷ bytes) = ap (λ l. hex_byte b ∷ l) (chunks-hex_bytes bytes)

pub length-hex_bytes : (bytes : List ℕ) → length (flat_map hex_byte bytes) ≡ 2 * length bytes
unfolding flat_map
length-hex_bytes [] = refl
length-hex_bytes (b ∷ bytes) = omega (arith, length-hex_bytes bytes)

module _ (garbage : ℕ) where
  fit-some : (w : ℕ) → w < 2 ^ 32 → fit garbage (some w) ≡ some w
  unfolding fit
  fit-some w h = ground arith

  pub parse_hex-hex_word : (w : ℕ) → w < 2 ^ 32 → parse_hex garbage (hex_word w) ≡ some w
  unfolding hex_word parse_hex digits_from
  parse_hex-hex_word w h =
      ap (fit garbage)
        (ap (digits_from 0) (sym (append-nil (hex_word w))) ∙ digits_from-hex_word w [] h)
      ∙ fit-some w h

  pub parse_hex-hex_byte : (n : ℕ) → n < 256 → parse_hex garbage (hex_byte n) ≡ some n
  unfolding parse_hex digits_from
  parse_hex-hex_byte n h =
      let value : 0 * 256 + n ≡ n = omega arith in
      ap (fit garbage) (digits_from-hex_byte 0 n [] h ∙ ap (λ a. digits_from a []) value)
      ∙ fit-some n (omega arith)

  pub parse_hex-hex_bytes2 :
      (n : ℕ) → n < 2 ^ 16 → parse_hex garbage (hex_byte (n / 256) ++ hex_byte (n % 256)) ≡ some n
  unfolding parse_hex digits_from
  parse_hex-hex_bytes2 n h =
      let value : (0 * 256 + n / 256) * 256 + n % 256 ≡ n = omega arith in
      ap (fit garbage) (
        digits_from-hex_byte 0 (n / 256) (hex_byte (n % 256)) (omega arith)
        ∙ digits_from-hex_byte (0 * 256 + n / 256) (n % 256) [] (omega arith)
        ∙ ap (λ a. digits_from a []) value)
      ∙ fit-some n (omega arith)

  pub parse_bytes-hex_bytes :
      (bytes : List ℕ)
      → All (λ b. b < 256) bytes
      → parse_bytes garbage (map hex_byte bytes) ≡ some bytes
  unfolding parse_bytes
  parse_bytes-hex_bytes [] h = refl
  parse_bytes-hex_bytes (b ∷ bytes) (h, hs) =
      let byte : u8 b ≡ b = omega arith in
      rw (parse_hex-hex_byte b h, parse_bytes-hex_bytes bytes hs, byte) refl

  pub parse_u32_pair-hex_words :
      (a b : ℕ)
      → a < 2 ^ 32
      → b < 2 ^ 32
      → parse_u32_pair garbage (hex_word a ++ b',' ∷ hex_word b) ≡ some (a, b)
  unfolding parse_u32_pair pair_of
  parse_u32_pair-hex_words a b h k =
      rw
        (
          parse_u32_pair,
          find_delim-Lacks b',' (hex_word a) (hex_word b)
              (IsDigits-Lacks b',' (hex_word a) refl (hex_word-IsDigits a)),
          parse_hex-hex_word a h,
          parse_hex-hex_word b k,
        )
        refl
