-- ===== src/GdbStub/Text.antt =====
-- Text as the protocol sees it, a list of bytes, and the parts of the language that read and print
-- hexadecimal digits.
use Prim.Native.Char.{code}
use Prim.Native.String.{String}
use simple_riscv_emulator.Common.{
  ℕ, zero, suc, ◌+◌, ◌-◌, ◌/◌, ◌%◌, ◌<◌, Bool, true, false, ◌&&◌, ◌||◌, List, [], ◌∷◌, ◌++◌, Option,
  none, some, ltb, leb, ◌==◌, if◌then◌else◌, ◌≡◌, arith,
}

-- `std::isxdigit`.
abbrev pub isxdigit : ℕ → Bool
isxdigit c = leb b'0' c && leb c b'9' || leb b'A' c && leb c b'F' || leb b'a' c && leb c b'f'

-- The value of a hexadecimal digit, as `std::stoi` and `std::from_chars` read it.
abbrev pub hex_value : ℕ → ℕ
hex_value c = if leb c b'9' then c - b'0' else if leb c b'F' then c - b'A' + 10 else c - b'a' + 10

-- The digit that `{:x}` prints.
abbrev pub hex_digit : ℕ → ℕ
hex_digit n = if ltb n 10 then b'0' + n else b'a' + (n - 10)

-- `{:02x}` of a byte.
abbrev pub hex_byte : ℕ → List ℕ
hex_byte n = hex_digit (n / 16) ∷ hex_digit (n % 16) ∷ []

pub isxdigit-hex_digit : (n : ℕ) → n < 16 → isxdigit (hex_digit n) ≡ true
isxdigit-hex_digit n h = ground arith

pub hex_value-hex_digit : (n : ℕ) → n < 16 → hex_value (hex_digit n) ≡ n
hex_value-hex_digit n h = ground arith

abbrev pub All {ℓ κ} : {A : Type ℓ} → (A → Type κ) → List A → Type κ
All P [] = Unit
All P (x ∷ xs) = P x × All P xs

pub All-append {ℓ κ} :
    {A : Type ℓ} (P : A → Type κ) (xs ys : List A) → All P xs → All P ys → All P (xs ++ ys)
All-append P [] ys hx hy = hy
All-append P (x ∷ xs) ys hx hy = (hx.0, All-append P xs ys hx.1 hy)

module _ {ℓ} {A : Type ℓ} where
  abbrev pub take : ℕ → List A → List A
  take zero xs = []
  take (suc n) [] = []
  take (suc n) (x ∷ xs) = x ∷ take n xs

  abbrev pub drop : ℕ → List A → List A
  drop zero xs = xs
  drop (suc n) [] = []
  drop (suc n) (x ∷ xs) = drop n xs

  -- The first `count` parts of `views::chunk(size)`.
  abbrev pub chunks : ℕ → ℕ → List A → List (List A)
  chunks size zero xs = []
  chunks size (suc count) xs = take size xs ∷ chunks size count (drop size xs)

-- `==` on texts.
abbrev pub text_eq : List ℕ → List ℕ → Bool
text_eq [] [] = true
text_eq [] (y ∷ ys) = false
text_eq (x ∷ xs) [] = false
text_eq (x ∷ xs) (y ∷ ys) = (x == y) && text_eq xs ys

-- `starts_with`.
abbrev pub starts_with : List ℕ → List ℕ → Bool
starts_with s [] = true
starts_with [] (y ∷ ys) = false
starts_with (x ∷ xs) (y ∷ ys) = (x == y) && starts_with xs ys

-- The text before the first `delim`, and the text behind it, if there is one.
abbrev pub put_first : ℕ → Option (List ℕ × List ℕ) → Option (List ℕ × List ℕ)
put_first c none = none
put_first c (some (before, behind)) = some (c ∷ before, behind)

unfoldable pub find_delim : ℕ → List ℕ → Option (List ℕ × List ℕ)
find_delim delim [] = none
find_delim delim (c ∷ rest) =
    let later = put_first c (find_delim delim rest) in if c == delim then some ([], rest) else later

-- `views::split` of a text that is not empty.
abbrev pub put_head : ℕ → List (List ℕ) → List (List ℕ)
put_head c [] = (c ∷ []) ∷ []
put_head c (part ∷ parts) = (c ∷ part) ∷ parts

unfoldable pub split_parts : ℕ → List ℕ → List (List ℕ)
split_parts delim [] = [] ∷ []
split_parts delim (c ∷ rest) =
    let later = split_parts delim rest in if c == delim then [] ∷ later else put_head c later

-- `views::split`: an empty text has no parts.
unfoldable pub split : ℕ → List ℕ → List (List ℕ)
unfolding split_parts
split delim [] = []
split delim (c ∷ rest) = split_parts delim (c ∷ rest)

-- A chain of reads, each of which may fail.
infixl 10 ◌>>=◌
abbrev pub ◌>>=◌ {ℓ κ} : {A : Type ℓ} {B : Type κ} → Option A → (A → Option B) → Option B
none >>= f = none
some a >>= f = f a

-- The bytes of an ASCII text.
abbrev pub codes : String → List ℕ
codes String.[] = []
codes (String.◌∷◌ c s) = code c ∷ codes s
