-- ===== src/GdbStub/Command/Tests.antt =====
-- lib/gdb-stub/command.cpp: short commands.
use simple_riscv_emulator.Common.{
  ℕ, ◌==◌, Option, List, none, some, [], ◌∷◌, ◌++◌, map, true, ◌≡◌, refl, arith,
}
use simple_riscv_emulator.GdbStub.{codes, text_eq}
use simple_riscv_emulator.GdbStub.Command.{
  parsed, fail, out_of_range, length_error, query_supported, HostFeatureStatus, with_value,
  supported, write_memory, write_register, add_breakpoint,
}
use simple_riscv_emulator.GdbStub.OrderedMap.Lookup.{first}
use simple_riscv_emulator.GdbStub.Command.Features.{
  Feature, has, lacks, sets, features_text, entry, IsAnnounced, parse-features_text,
}
use simple_riscv_emulator.GdbStub.Command.Hex.{parse_hex}
use simple_riscv_emulator.GdbStub.Command.Parse.{parse}
use simple_riscv_emulator.GdbStub.Command.RoundTrip.{write_memory_text, parse-write_memory}
use simple_riscv_emulator.GdbStub.Command.Registers.{swapped_at, parse-register_content}
use simple_riscv_emulator.GdbStub.Response.{register_content, to_string}

breakpoint :
    parse 0 (codes "Z1,80000000,4;X2,2a07")
    ≡ parsed (add_breakpoint true 0x8000_0000 4 (some (0x2a ∷ 0x07 ∷ [])))
unfolding parse
breakpoint = refl

cycles : parse 0 (codes "i,5") ≡ fail
unfolding parse
cycles = refl

-- Nine digits do not fit, and the variable keeps what it held.
too_long : parse_hex 77 (codes "123456789") ≡ some 77
unfolding parse_hex
too_long = refl

-- `substr` throws for a query that ends behind `read`.
cut_query : parse 0 (codes "qXfer:features:read") ≡ out_of_range
unfolding parse
cut_query = refl

-- A feature without a separator is built from a range that ends before it starts.
no_separator : parse 0 (codes "qSupported:xmlRegisters=i386;vContSupported") ≡ length_error
unfolding parse
no_separator = refl

-- The names are kept in order, and the first of two equal ones stays.
features :
    parse 0 (codes "qSupported:swbreak+;a=b=c;swbreak-")
    ≡ parsed (
        query_supported (
          (codes "a=b", record { property = with_value; value = some (codes "c") })
          ∷ (codes "swbreak", record { property = supported; value = none })
          ∷ []))
unfolding parse
features = refl

parse-write_memory_example :
    parse 0 (write_memory_text 0x8000_0001 (0xde ∷ 0xad ∷ []))
    ≡ parsed (write_memory 0x8000_0001 (0xde ∷ 0xad ∷ []))
parse-write_memory_example =
    parse-write_memory 0 0x8000_0001 (0xde ∷ 0xad ∷ []) (omega arith) (ground arith) (omega arith)
      (omega arith, (omega arith, tt))

abbrev values : List (Option ℕ)
values = none ∷ some 0x1122_3344 ∷ []

parse-register_content_example :
    (m : List (ℕ × ℕ)) × (parse 0 (b'G' ∷ to_string (register_content values))
      ≡ parsed (write_register m))
    × ((i : ℕ) → first ◌==◌ i m ≡ swapped_at values i)
parse-register_content_example = parse-register_content 0 values (ground arith) (omega arith)

abbrev announced : List Feature
announced = sets (codes "a=b") (codes "c") ∷ lacks (codes "swbreak") ∷ []

parse-features_text_example :
    (m : List (List ℕ × HostFeatureStatus)) × (parse 0
        (codes "qSupported:" ++ features_text (has (codes "swbreak")) announced)
      ≡ parsed (query_supported m))
    × ((name : List ℕ)
        → first text_eq name m ≡ first text_eq name (map entry (has (codes "swbreak") ∷ announced)))
unfolding IsAnnounced
parse-features_text_example = parse-features_text 0 (has (codes "swbreak")) announced (
  (
    omega arith,
    (omega arith, (omega arith, (omega arith, (omega arith, (omega arith, (omega arith, tt)))))),
  ),
  (
    ((omega arith, (omega arith, (omega arith, tt))), (omega arith, tt), (refl, tt)),
    (
      (
        omega arith,
        (
          omega arith,
          (omega arith, (omega arith, (omega arith, (omega arith, (omega arith, tt))))),
        ),
      ),
      tt,
    ),
  ),
)
