-- ===== src/GdbStub/Command/Points.antt =====
-- lib/gdb-stub/command.cpp: the parsers of the commands for breakpoints and watchpoints.
use simple_riscv_emulator.Common.{
  ℕ, ◌+◌, ◌*◌, ◌/◌, true, false, not, ◌||◌, Option, none, some, List, [], ◌∷◌, length, ltb, ◌==◌,
  if◌then◌else◌, u32,
}
use simple_riscv_emulator.GdbStub.{split, chunks}
use simple_riscv_emulator.GdbStub.Command.{
  Parsed, parsed, fail, or_fail, add_breakpoint, add_watchpoint, remove_breakpoint,
  remove_watchpoint,
}
use simple_riscv_emulator.GdbStub.Command.Hex.{
  parse_hex, parse_u32_pair, parse_bytes, split_once, is_empty,
}

module _ (garbage : ℕ) where
  bytecode_of : List ℕ → Option ℕ → Option (List ℕ)
  unfolding parse_bytes
  bytecode_of data_str none = none
  bytecode_of data_str (some count) =
      if not (length data_str == u32 (count * 2))
      then none
      else parse_bytes garbage (chunks 2 ((length data_str + 1) / 2) data_str)

  unfoldable pub parse_bytecode : List ℕ → Option (List ℕ)
  unfolding bytecode_of split_once parse_hex
  parse_bytecode [] = none
  parse_bytecode (c ∷ rest) =
      let (length_str, data_str) = split_once rest b',' in
      if not (c == b'X') || (is_empty length_str || is_empty data_str)
      then none
      else bytecode_of data_str (parse_hex garbage length_str)

  remove : ℕ → ℕ × ℕ → Parsed
  remove kind (addr, size) =
      if kind == b'0'
      then parsed (remove_breakpoint false addr size)
      else if kind == b'1'
      then parsed (remove_breakpoint true addr size)
      else if kind == b'2'
      then parsed (remove_watchpoint true false addr size)
      else if kind == b'3'
      then parsed (remove_watchpoint false true addr size)
      else if kind == b'4'
      then parsed (remove_watchpoint true true addr size)
      else fail

  unfoldable pub parse_z : List ℕ → Parsed
  unfolding remove or_fail parse_u32_pair
  parse_z (kind ∷ c ∷ x ∷ rest) =
      if not (c == b',') then fail else or_fail (parse_u32_pair garbage (x ∷ rest)) (remove kind)
  parse_z _ = fail

  -- A breakpoint's address and length, and its condition, if there is one.
  unfoldable pub add_with : ℕ → List (List ℕ) → Parsed
  unfolding or_fail parse_u32_pair parse_bytecode
  add_with kind [] = fail
  add_with kind (place ∷ []) =
      or_fail (parse_u32_pair garbage place)
        λ pair. parsed (add_breakpoint (kind == b'1') pair.0 pair.1 none)
  add_with kind (place ∷ code ∷ rest) =
      if ltb 3 (length (place ∷ code ∷ rest))
      then fail
      else or_fail (parse_u32_pair garbage place) λ pair.
        or_fail (parse_bytecode code)
          λ bytecode. parsed (add_breakpoint (kind == b'1') pair.0 pair.1 (some bytecode))

  unfoldable pub parse_Z : List ℕ → Parsed
  unfolding add_with split
  parse_Z (kind ∷ c ∷ x ∷ rest) =
      if not (c == b',')
      then fail
      else if kind == b'0' || kind == b'1'
      then add_with kind (split b';' (x ∷ rest))
      else if kind == b'2' || kind == b'3' || kind == b'4'
      then (or_fail (parse_u32_pair garbage (x ∷ rest)) λ pair. parsed (
          add_watchpoint (kind == b'2' || kind == b'4') (kind == b'3' || kind == b'4') pair.0
            pair.1))
      else fail
  parse_Z _ = fail
