-- ===== src/GdbStub/Command/Supported.antt =====
-- lib/gdb-stub/command.cpp: the features of the host in a `qSupported` packet.
use simple_riscv_emulator.Common.{
  ℕ, Bool, true, false, ◌||◌, ◌&&◌, Option, none, some, List, [], ◌∷◌, ltb, ◌==◌, if◌then◌else◌,
}
use simple_riscv_emulator.GdbStub.{split}
use simple_riscv_emulator.GdbStub.OrderedMap.{to_map}
use simple_riscv_emulator.GdbStub.Command.{
  HostFeatureStatus, with_value, supported, unsupported, unknown, Parsed, parsed, length_error,
  query_supported,
}

-- The characters `+-?=`.
abbrev pub is_separator : ℕ → Bool
is_separator c = c == b'+' || c == b'-' || c == b'?' || c == b'='

-- `find_first_of` in the reversed text: what stands before the last separator, the separator, and
-- what stands behind it.
unfoldable pub last_separator : List ℕ → Option (List ℕ × ℕ × List ℕ)
last_separator [] = none
last_separator (c ∷ rest) = elim (last_separator rest) [
  | none ↦ if is_separator c then some ([], c, rest) else none
  | some (name, sep, value) ↦ some (c ∷ name, sep, value)
]

-- The `switch` on the separator, which is one of the four.
unfoldable pub status_of : ℕ → List ℕ → HostFeatureStatus
status_of sep value =
    if sep == b'+'
    then record { property = supported; value = none }
    else if sep == b'-'
    then record { property = unsupported; value = none }
    else if sep == b'?'
    then record { property = unknown; value = none }
    else record { property = with_value; value = some value }

-- Without a separator the reversed search ends one character before the text, so that the filter
-- lets the text pass and its name is a range that ends before it starts.
unfoldable pub features_of : List (List ℕ) → Option (List (List ℕ × HostFeatureStatus))
unfolding last_separator status_of
features_of [] = some []
features_of (part ∷ parts) = elim (last_separator part) [
  | none ↦ none
  | some (name, sep, value) ↦ elim (features_of parts) [
    | none ↦ none
    | some features ↦ some ((name, status_of sep value) ∷ features)
  ]
]

-- `operator<` of texts, the order of the map: of equal names it keeps the first.
unfoldable pub text_less : List ℕ → List ℕ → Bool
text_less xs [] = false
text_less [] (y ∷ ys) = true
text_less (x ∷ xs) (y ∷ ys) = ltb x y || ((x == y) && text_less xs ys)

unfoldable pub query_of : Option (List (List ℕ × HostFeatureStatus)) → Parsed
unfolding text_less to_map
query_of none = length_error
query_of (some features) = parsed (query_supported (to_map text_less [] features))

unfoldable pub parse_q_supported : List ℕ → Parsed
unfolding features_of query_of split
parse_q_supported params = query_of (features_of (split b';' params))
