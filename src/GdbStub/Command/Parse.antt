-- ===== src/GdbStub/Command/Parse.antt =====
-- lib/gdb-stub/command.cpp: `parse` and the parsers of memory, register and step commands.
use simple_riscv_emulator.Common.{
  ℕ, ◌+◌, ◌*◌, ◌/◌, ◌%◌, true, false, not, ◌||◌, Option, none, some, List, [], ◌∷◌, length, map,
  ltb, leb, ◌==◌, if◌then◌else◌, u16, u32,
}
use simple_riscv_emulator.GdbStub.{text_eq, split, chunks, ◌>>=◌}
use simple_riscv_emulator.GdbStub.OrderedMap.{to_map}
use simple_riscv_emulator.GdbStub.Command.{
  Command, Parsed, parsed, fail, or_fail, acknowledge_packet, interrupt_packet, enable_persistant,
  ask_halt_reason, continue, read_register, write_register, step_cycles, stop, read_memory,
  write_memory, read_single_register, write_single_register, step_single_inst,
}
use simple_riscv_emulator.GdbStub.Command.Hex.{
  parse_hex, parse_u32_pair, parse_bytes, split_once, is_empty,
}
use simple_riscv_emulator.GdbStub.Command.Points.{parse_z, parse_Z}
use simple_riscv_emulator.GdbStub.Command.Query.{parse_q}

-- A text of eight `x`, for a register that has no value.
abbrev pub no_value : List ℕ
no_value = b'x' ∷ b'x' ∷ b'x' ∷ b'x' ∷ b'x' ∷ b'x' ∷ b'x' ∷ b'x' ∷ []

module _ (garbage : ℕ) where
  -- `c`, and `s` of one instruction.
  unfoldable pub parse_address : (Option ℕ → Command) → List ℕ → Parsed
  unfolding parse_hex or_fail
  parse_address command [] = parsed (command none)
  parse_address command (c ∷ rest) =
      or_fail (parse_hex garbage (c ∷ rest)) λ address. parsed (command (some address))

  -- The values of `G`, each under its number.
  unfoldable pub register_values : ℕ → List (List ℕ) → Option (List (ℕ × ℕ))
  unfolding parse_hex
  register_values index [] = some []
  register_values index (part ∷ parts) =
      let rest = register_values (index + 1) parts in
      if text_eq part no_value
      then rest
      else (do value ← parse_hex garbage part; values ← rest; some ((u16 index, value) ∷ values))

  unfoldable pub parse_write_registers : List ℕ → Parsed
  unfolding register_values or_fail to_map
  parse_write_registers params =
      if is_empty params || not (length params % 8 == 0)
      then fail
      else or_fail (register_values 0 (chunks 8 (length params / 8) params))
          λ values. parsed (write_register (to_map ltb [] values))

  unfoldable pub step_cycles_of : List (Option ℕ) → Parsed
  step_cycles_of [] = parsed (step_cycles none none)
  step_cycles_of (some address ∷ []) = parsed (step_cycles (some address) none)
  step_cycles_of (some address ∷ some count ∷ []) = parsed (step_cycles (some address) (some count))
  step_cycles_of _ = fail

  unfoldable pub parse_step_single_cycle : List ℕ → Parsed
  unfolding step_cycles_of parse_hex split
  parse_step_single_cycle params = step_cycles_of (map (parse_hex garbage) (split b',' params))

  unfoldable pub parse_read_memory : List ℕ → Parsed
  unfolding parse_u32_pair or_fail
  parse_read_memory params =
      or_fail (parse_u32_pair garbage params) λ pair. parsed (read_memory pair.0 pair.1)

  -- The length counts bytes; twice the length is a `u32`.
  unfoldable pub parse_write_memory : List ℕ → Parsed
  unfolding parse_u32_pair or_fail split_once parse_bytes
  parse_write_memory params =
      let (addr_length_str, data_str) = split_once params b':' in
      if is_empty addr_length_str || is_empty data_str
      then fail
      else or_fail (parse_u32_pair garbage addr_length_str) λ pair.
        if not (length data_str == u32 (pair.1 * 2))
        then fail
        else or_fail (parse_bytes garbage (chunks 2 ((length data_str + 1) / 2) data_str))
            λ bytes. parsed (write_memory pair.0 bytes)

  unfoldable pub parse_read_single_register : List ℕ → Parsed
  unfolding parse_hex or_fail
  parse_read_single_register params =
      if is_empty params || ltb 4 (length params)
      then fail
      else or_fail (parse_hex garbage params)
          λ address. if leb 65536 address then fail else parsed (read_single_register address)

  unfoldable pub parse_write_single_register : List ℕ → Parsed
  unfolding parse_hex or_fail split_once
  parse_write_single_register params =
      let (address_str, value_str) = split_once params b'=' in
      if is_empty params
        || (is_empty address_str
            || is_empty value_str
            || ltb 4 (length address_str)
            || not (length value_str == 8))
      then fail
      else or_fail (parse_hex garbage address_str) λ address.
        if leb 65536 address
        then fail
        else or_fail (parse_hex garbage value_str)
            λ value. parsed (write_single_register address value)

  -- `single_char_command`.
  unfoldable pub find_single_char : ℕ → Option Command
  find_single_char c =
      if c == b'+'
      then some (acknowledge_packet true)
      else if c == b'-'
      then some (acknowledge_packet false)
      else if c == 0x03
      then some interrupt_packet
      else if c == b'!'
      then some enable_persistant
      else if c == b'?'
      then some ask_halt_reason
      else if c == b'g'
      then some read_register
      else if c == b'k'
      then some stop
      else none

  -- `param_char_command_parsers`.
  unfoldable pub parse_params : ℕ → List ℕ → Parsed
  unfolding parse_address parse_write_registers parse_step_single_cycle parse_read_memory
      parse_write_memory parse_read_single_register parse_write_single_register parse_q parse_z
      parse_Z
  parse_params c params =
      if c == b'c'
      then parse_address continue params
      else if c == b'G'
      then parse_write_registers params
      else if c == b'i'
      then parse_step_single_cycle params
      else if c == b'm'
      then parse_read_memory params
      else if c == b'M'
      then parse_write_memory params
      else if c == b'p'
      then parse_read_single_register params
      else if c == b'P'
      then parse_write_single_register params
      else if c == b's'
      then parse_address step_single_inst params
      else if c == b'q'
      then parse_q garbage params
      else if c == b'z'
      then parse_z garbage params
      else if c == b'Z'
      then parse_Z garbage params
      else fail

  unfoldable pub or_parsed : Option Command → Parsed → Parsed
  or_parsed none p = p
  or_parsed (some command) p = parsed command

  unfoldable pub parse : List ℕ → Parsed
  unfolding or_parsed find_single_char parse_params
  parse [] = fail
  parse (c ∷ []) = or_parsed (find_single_char c) (parse_params c [])
  parse (c ∷ x ∷ rest) = parse_params c (x ∷ rest)
