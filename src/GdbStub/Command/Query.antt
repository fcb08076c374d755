-- ===== src/GdbStub/Command/Query.antt =====
-- lib/gdb-stub/command.cpp: the parsers of queries.
use simple_riscv_emulator.Common.{ℕ, ◌||◌, List, length, ltb, if◌then◌else◌}
use simple_riscv_emulator.GdbStub.{codes, text_eq, starts_with, drop}
use simple_riscv_emulator.GdbStub.Command.{
  Parsed, parsed, fail, out_of_range, or_fail, read_feature_xml, read_memory_map_xml,
}
use simple_riscv_emulator.GdbStub.Command.Supported.{parse_q_supported}
use simple_riscv_emulator.GdbStub.Command.Hex.{parse_u32_pair, split_once, is_empty}

module _ (garbage : ℕ) where
  unfoldable pub parse_qxfer_feature_read : List ℕ → Parsed
  unfolding parse_u32_pair split_once or_fail
  parse_qxfer_feature_read params =
      let (annex_str, offset_length_str) = split_once params b':' in
      or_fail (parse_u32_pair garbage offset_length_str)
        λ pair. parsed (read_feature_xml annex_str pair.0 pair.1)

  unfoldable pub parse_qxfer_memorymap_read : List ℕ → Parsed
  unfolding parse_u32_pair split_once or_fail
  parse_qxfer_memorymap_read params =
      let (annex_str, offset_length_str) = split_once params b':' in
      or_fail (parse_u32_pair garbage offset_length_str)
        λ pair. parsed (read_memory_map_xml pair.0 pair.1)

  -- `params.substr(n)` throws `std::out_of_range` if the text is shorter than `n`.
  unfoldable pub substr : List ℕ → ℕ → (List ℕ → Parsed) → Parsed
  substr params n k = if ltb (length params) n then out_of_range else k (drop n params)

  unfoldable pub parse_qxfer : List ℕ → Parsed
  unfolding substr parse_qxfer_feature_read parse_qxfer_memorymap_read
  parse_qxfer params =
      if starts_with params (codes "features:read")
      then substr params 14 parse_qxfer_feature_read
      else if starts_with params (codes "memory-map:read")
      then substr params 16 parse_qxfer_memorymap_read
      else fail

  unfoldable pub parse_q : List ℕ → Parsed
  unfolding split_once parse_q_supported parse_qxfer
  parse_q params =
      let (sub_operand, sub_params) = split_once params b':' in
      if is_empty sub_operand || is_empty sub_params
      then fail
      else if text_eq sub_operand (codes "Supported")
      then parse_q_supported sub_params
      else if text_eq sub_operand (codes "Xfer")
      then parse_qxfer sub_params
      else fail
