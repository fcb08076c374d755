-- ===== src/GdbStub/Response.antt =====
-- lib/gdb-stub/response.cpp and lib/include/gdb-stub/response.hpp: the responses and their texts.
use mathlib.Core.List.{flat_map}
use simple_riscv_emulator.Common.{
  ℕ, ◌+◌, ◌*◌, ◌/◌, ◌%◌, ◌^◌, Bool, true, false, Option, none, some, List, [], ◌∷◌, ◌++◌, ◌==◌,
  if◌then◌else◌,
}
use simple_riscv_emulator.GdbStub.{hex_byte, codes}

-- `{:08x}`.
unfoldable pub hex_word : ℕ → List ℕ
hex_word w =
    hex_byte (w / 2 ^ 24 % 2 ^ 8)
    ++ (hex_byte (w / 2 ^ 16 % 2 ^ 8) ++ (hex_byte (w / 2 ^ 8 % 2 ^ 8) ++ hex_byte (w % 2 ^ 8)))

trim_zeros : List ℕ → List ℕ
trim_zeros [] = []
trim_zeros (c ∷ []) = c ∷ []
trim_zeros (c ∷ d ∷ rest) =
    let later = trim_zeros (d ∷ rest) in if c == b'0' then later else c ∷ d ∷ rest

-- `{:x}`.
unfoldable pub hex_number : ℕ → List ℕ
unfolding hex_word trim_zeros
hex_number w = trim_zeros (hex_word w)

-- `std::byteswap` of a word.
abbrev pub byteswap : ℕ → ℕ
byteswap w =
    w % 2 ^ 8 * 2 ^ 24
    + w / 2 ^ 8 % 2 ^ 8 * 2 ^ 16
    + w / 2 ^ 16 % 2 ^ 8 * 2 ^ 8
    + w / 2 ^ 24 % 2 ^ 8

abbrev pub sigint : ℕ
sigint = 2

abbrev pub sigtrap : ℕ
sigtrap = 5

-- `Stop_reason::hit`.
pub data Hit : Type 0 where
  no_hit : Hit
  watchpoint_hit : ℕ → Bool → Bool → Hit
  breakpoint_hit : Bool → Hit

pub record StopReason : Type 0 where
  pub signal : ℕ
  pub hit : Hit

pub data Response : Type 0 where
  ok_response : Response
  single_register_content : Option ℕ → Response
  register_content : List (Option ℕ) → Response
  raw_byte_stream : List ℕ → Response
  unsupported_command : Response
  error_code : ℕ → Response
  error_message : List ℕ → Response
  stop_reason : StopReason → Response
  qxfer_response : Bool → List ℕ → Response
  qsupported_response : Response

abbrev pub no_content : List ℕ
no_content = b'x' ∷ b'x' ∷ b'x' ∷ b'x' ∷ b'x' ∷ b'x' ∷ b'x' ∷ b'x' ∷ []

-- A register in `Single_register_content` and in `Register_content`.
unfoldable pub single_register_text : Option ℕ → List ℕ
unfolding hex_word
single_register_text none = no_content
single_register_text (some value) = hex_word value

unfoldable pub register_text : Option ℕ → List ℕ
unfolding hex_word
register_text none = no_content
register_text (some value) = hex_word (byteswap value)

watch_name : Bool → Bool → List ℕ
watch_name true true = codes "awatch"
watch_name false true = codes "rwatch"
watch_name true false = codes "watch"
watch_name false false = []

-- `Stop_reason::parse_hit_string`; the arguments of a watchpoint are `is_write` and `is_read`.
unfoldable pub parse_hit_string : Hit → List ℕ
unfolding watch_name hex_number
parse_hit_string no_hit = []
parse_hit_string (watchpoint_hit address false false) = []
parse_hit_string (watchpoint_hit address is_write is_read) =
    watch_name is_write is_read ++ (b':' ∷ hex_number address ++ b';' ∷ [])
parse_hit_string (breakpoint_hit true) = codes "hwbreak:;"
parse_hit_string (breakpoint_hit false) = codes "swbreak:;"

raw_bytes_text : List ℕ → List ℕ
raw_bytes_text [] = codes "E00"
raw_bytes_text (byte ∷ bytes) = flat_map hex_byte (byte ∷ bytes)

-- `to_string`; the last text is that of stub-feature.inc.
unfoldable pub to_string : Response → List ℕ
unfolding single_register_text register_text parse_hit_string raw_bytes_text
to_string ok_response = codes "OK"
to_string (single_register_content value) = single_register_text value
to_string (register_content values) = flat_map register_text values
to_string (raw_byte_stream bytes) = raw_bytes_text bytes
to_string unsupported_command = []
to_string (error_code code) = b'E' ∷ hex_byte code
to_string (error_message message) = codes "E." ++ message
to_string (stop_reason reason) = b'T' ∷ (hex_byte reason.signal ++ parse_hit_string reason.hit)
to_string (qxfer_response completed bytes) = (if completed then b'l' else b'm') ∷ bytes
to_string qsupported_response =
    codes
      "error-message+;PacketSize=65536;qXfer:features:read+;qXfer:memory-map:read+;BreakpointCommands-;hwbreak+;swbreak-;QNonStop-;multiprocess-"
