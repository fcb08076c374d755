-- ===== src/GdbStub/Command/RoundTrip.antt =====
-- lib/gdb-stub/command.cpp: `parse` on the commands as a debugger writes them.
use mathlib.Core.List.{flat_map}
use simple_riscv_emulator.Common.{
  ℕ, ◌+◌, ◌*◌, ◌/◌, ◌%◌, ◌^◌, ◌<◌, true, false, List, [], ◌∷◌, ◌++◌, length, leb, ◌==◌, u32, ◌≡◌,
  ◌≢◌, refl, ap, arith,
}
use simple_riscv_emulator.GdbStub.{All, All-append, hex_byte}
use simple_riscv_emulator.GdbStub.Command.{
  parsed, or_fail, read_memory, write_memory, write_single_register,
}
use simple_riscv_emulator.GdbStub.Command.Hex.{split_once, is_empty}
use simple_riscv_emulator.GdbStub.Command.Parse.{
  parse, parse_write_memory, parse_write_single_register,
}
use simple_riscv_emulator.GdbStub.Command.Digits.{
  parse_hex-hex_bytes2, hex_bytes-IsDigits, hex_word-IsDigits, find_delim-Lacks, IsDigits-Lacks,
  chunks-hex_bytes, length-hex_bytes, parse_hex-hex_word, parse_bytes-hex_bytes,
  parse_u32_pair-hex_words,
}
use simple_riscv_emulator.GdbStub.Response.{hex_word}

-- The commands as a debugger writes them.
unfoldable pub read_memory_text : ℕ → ℕ → List ℕ
unfolding hex_word
read_memory_text address size = b'm' ∷ (hex_word address ++ b',' ∷ hex_word size)

unfoldable pub write_memory_text : ℕ → List ℕ → List ℕ
unfolding hex_word
write_memory_text address bytes =
    b'M' ∷ ((hex_word address ++ b',' ∷ hex_word (length bytes)) ++ b':' ∷ flat_map hex_byte bytes)

unfoldable pub write_single_register_text : ℕ → ℕ → List ℕ
unfolding hex_word
write_single_register_text regno value =
    b'P' ∷ ((hex_byte (regno / 256) ++ hex_byte (regno % 256)) ++ b'=' ∷ hex_word value)

split_once-Lacks :
    (delim : ℕ) (s rest : List ℕ)
    → All (λ c. c ≢ delim) s
    → split_once (s ++ delim ∷ rest) delim ≡ (s, rest)
unfolding split_once
split_once-Lacks delim s rest h = rw (split_once, find_delim-Lacks delim s rest h) refl

pair-Lacks : (a n : ℕ) → All (λ c. c ≢ b':') (hex_word a ++ b',' ∷ hex_word n)
pair-Lacks a n =
    All-append (λ c. c ≢ b':') (hex_word a) (b',' ∷ hex_word n)
      (IsDigits-Lacks b':' (hex_word a) refl (hex_word-IsDigits a))
      (omega arith, IsDigits-Lacks b':' (hex_word n) refl (hex_word-IsDigits n))

pair-is_empty : (a : ℕ) (rest : List ℕ) → is_empty (hex_word a ++ rest) ≡ false
unfolding hex_word
pair-is_empty a rest = refl

hex_word-is_empty : (v : ℕ) → is_empty (hex_word v) ≡ false
unfolding hex_word
hex_word-is_empty v = refl

length-hex_word : (v : ℕ) → length (hex_word v) ≡ 8
unfolding hex_word
length-hex_word v = refl

u16-Lacks : (r : ℕ) → r < 2 ^ 16 → All (λ c. c ≢ b'=') (hex_byte (r / 256) ++ hex_byte (r % 256))
unfolding flat_map
u16-Lacks r h =
    IsDigits-Lacks b'=' (hex_byte (r / 256) ++ hex_byte (r % 256)) refl
      (hex_bytes-IsDigits (r / 256 ∷ r % 256 ∷ []) (omega arith, (omega arith, tt)))

hex_bytes-is_empty : (bytes : List ℕ) → bytes ≢ [] → is_empty (flat_map hex_byte bytes) ≡ false
unfolding flat_map
hex_bytes-is_empty [] h = absurd (h refl)
hex_bytes-is_empty (b ∷ bytes) h = refl

module _ (garbage : ℕ) where
  -- An `m` command is read back with its address and length.
  pub parse-read_memory :
      (a n : ℕ)
      → a < 2 ^ 32
      → n < 2 ^ 32
      → parse garbage (read_memory_text a n) ≡ parsed (read_memory a n)
  unfolding read_memory_text parse hex_word
  parse-read_memory a n ha hn =
      ap (λ p. or_fail p λ pair. parsed (read_memory pair.0 pair.1))
        (parse_u32_pair-hex_words garbage a n ha hn)

  parse_write_memory-text :
      (a : ℕ) (bytes : List ℕ)
      → a < 2 ^ 32
      → bytes ≢ []
      → length bytes < 2 ^ 31
      → All (λ b. b < 256) bytes
      → parse_write_memory garbage
          ((hex_word a ++ b',' ∷ hex_word (length bytes)) ++ b':' ∷ flat_map hex_byte bytes)
        ≡ parsed (write_memory a bytes)
  unfolding parse_write_memory or_fail
  parse_write_memory-text a bytes ha ne l hs =
      let n = length bytes in
      let digits = flat_map hex_byte bytes in
      let size = length-hex_bytes bytes in
      let fits : (length digits == u32 (n * 2)) ≡ true = ground arith in
      let half : (length digits + 1) / 2 ≡ n = omega arith in
      rw
        (
          parse_write_memory,
          split_once-Lacks b':' (hex_word a ++ b',' ∷ hex_word n) digits (pair-Lacks a n),
          pair-is_empty a (b',' ∷ hex_word n),
          hex_bytes-is_empty bytes ne,
          parse_u32_pair-hex_words garbage a n ha (omega arith),
          or_fail,
          fits,
          half,
          chunks-hex_bytes bytes,
          parse_bytes-hex_bytes garbage bytes hs,
        )
        refl

  -- An `M` command of at least one and fewer than 2 ^ 31 bytes is read back with its address and
  -- its bytes.
  pub parse-write_memory :
      (a : ℕ) (bytes : List ℕ)
      → a < 2 ^ 32
      → bytes ≢ []
      → length bytes < 2 ^ 31
      → All (λ b. b < 256) bytes
      → parse garbage (write_memory_text a bytes) ≡ parsed (write_memory a bytes)
  unfolding write_memory_text parse hex_word
  parse-write_memory a bytes ha ne l hs = parse_write_memory-text a bytes ha ne l hs

  parse_write_single_register-text :
      (r v : ℕ)
      → r < 2 ^ 16
      → v < 2 ^ 32
      → parse_write_single_register garbage
          ((hex_byte (r / 256) ++ hex_byte (r % 256)) ++ b'=' ∷ hex_word v)
        ≡ parsed (write_single_register r v)
  unfolding parse_write_single_register or_fail
  parse_write_single_register-text r v hr hv =
      let fits : leb 65536 r ≡ false = ground arith in
      let size = length-hex_word v in
      rw
        (
          parse_write_single_register,
          split_once-Lacks b'=' (hex_byte (r / 256) ++ hex_byte (r % 256)) (hex_word v)
              (u16-Lacks r hr),
          hex_word-is_empty v,
          size,
          parse_hex-hex_bytes2 garbage r hr,
          or_fail,
          fits,
          parse_hex-hex_word garbage v hv,
        )
        refl

  -- A `P` command is read back with its register and its value.
  pub parse-write_single_register :
      (r v : ℕ)
      → r < 2 ^ 16
      → v < 2 ^ 32
      → parse garbage (write_single_register_text r v) ≡ parsed (write_single_register r v)
  unfolding write_single_register_text parse hex_word
  parse-write_single_register r v hr hv = parse_write_single_register-text r v hr hv
