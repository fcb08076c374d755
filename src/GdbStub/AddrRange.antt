-- ===== src/GdbStub/AddrRange.antt =====
-- lib/include/gdb-stub/addr-range.hpp: `Address_range`, a key of `std::map`.
use simple_riscv_emulator.Common.{
  ℕ, ◌+◌, ◌≤◌, ◌<◌, ◌^◌, Bool, true, false, not, ◌&&◌, ltb, leb, if◌then◌else◌, u32, ◌≡◌, ◌↔◌,
  arith, refl,
}
mod Tests

pub record AddressRange : Type 0 where
  pub start : ℕ
  pub size : ℕ

-- `std::partial_ordering`.
pub data PartialOrdering : Type 0 where
  equivalent : PartialOrdering
  greater : PartialOrdering
  less : PartialOrdering
  unordered : PartialOrdering

abbrev pub end_of : AddressRange → ℕ
end_of r = u32 (r.start + r.size)

-- `operator<=>`.
unfoldable pub compare_ranges : AddressRange → AddressRange → PartialOrdering
compare_ranges a b =
    if leb a.start b.start && leb (end_of b) (end_of a)
    then equivalent
    else if leb b.start a.start && leb (end_of a) (end_of b)
    then equivalent
    else if ltb (end_of b) a.start
    then greater
    else if ltb (end_of a) b.start
    then less
    else unordered

abbrev pub is_less : PartialOrdering → Bool
is_less less = true
is_less equivalent = false
is_less greater = false
is_less unordered = false

-- `a < b`, by which `std::map` orders its keys.
unfoldable pub range_lt : AddressRange → AddressRange → Bool
unfolding compare_ranges
range_lt a b = is_less (compare_ranges a b)

-- Two keys of which neither is below the other are the same to `std::map`.
unfoldable pub is_same_key : AddressRange → AddressRange → Bool
unfolding range_lt
is_same_key a b = not (range_lt a b) && not (range_lt b a)

-- The range does not reach the end of the address space.
abbrev pub IsBounded : AddressRange → Type 0
IsBounded r = r.start + r.size < 2 ^ 32

end_of-bounded : (r : AddressRange) → IsBounded r → end_of r ≡ r.start + r.size
end_of-bounded r h = omega arith

-- For ranges that end below 2 ^ 32, the map takes two as the same key exactly if they overlap or
-- touch: the second may start where the first one ends.
pub is_same_key_iff :
    (a b : AddressRange)
    → IsBounded a
    → IsBounded b
    → (is_same_key a b ≡ true) ↔ ((a.start ≤ b.start + b.size) × (b.start ≤ a.start + a.size))
unfolding is_same_key
is_same_key_iff a b h k = ground (arith, end_of-bounded a h, end_of-bounded b k)
