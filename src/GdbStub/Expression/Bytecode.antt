-- ===== src/GdbStub/Expression/Bytecode.antt =====
-- lib/include/gdb-stub/expression.hpp: `Bytecode`.
use simple_riscv_emulator.Common.{
  ℕ, List, [], ◌∷◌, Option, none, some, ◌==◌, if◌then◌else◌, ◌≡◌, refl, arith, ◌⊎◌, inl, inr, Bool,
  true, false, ap, sym, ◌∙◌, ==_iff,
}
use mathlib.Core.Option.{none-ne-some}

pub data Bytecode : Type 0 where
  float : Bytecode
  add : Bytecode
  sub : Bytecode
  mul : Bytecode
  div_signed : Bytecode
  div_unsigned : Bytecode
  rem_signed : Bytecode
  rem_unsigned : Bytecode
  lsh : Bytecode
  rsh_signed : Bytecode
  rsh_unsigned : Bytecode
  log_not : Bytecode
  bit_and_op : Bytecode
  bit_or_op : Bytecode
  bit_xor_op : Bytecode
  bit_not : Bytecode
  equal : Bytecode
  less_signed : Bytecode
  less_unsigned : Bytecode
  ext : Bytecode
  zero_ext : Bytecode
  ref8 : Bytecode
  ref16 : Bytecode
  ref32 : Bytecode
  ref64 : Bytecode
  ref_float : Bytecode
  ref_double : Bytecode
  ref_long_double : Bytecode
  l_to_d : Bytecode
  d_to_l : Bytecode
  dup : Bytecode
  swap : Bytecode
  pop_op : Bytecode
  pick : Bytecode
  rot : Bytecode
  if_goto : Bytecode
  goto : Bytecode
  const8 : Bytecode
  const16 : Bytecode
  const32 : Bytecode
  const64 : Bytecode
  reg : Bytecode
  getv : Bytecode
  setv : Bytecode
  trace : Bytecode
  trace_quick : Bytecode
  trace16 : Bytecode
  tracev : Bytecode
  tracenz : Bytecode
  print_f : Bytecode
  end : Bytecode

-- The number of an operation.
unfoldable pub to_u8 : Bytecode → ℕ
to_u8 float = 0x01
to_u8 add = 0x02
to_u8 sub = 0x03
to_u8 mul = 0x04
to_u8 div_signed = 0x05
to_u8 div_unsigned = 0x06
to_u8 rem_signed = 0x07
to_u8 rem_unsigned = 0x08
to_u8 lsh = 0x09
to_u8 rsh_signed = 0x0a
to_u8 rsh_unsigned = 0x0b
to_u8 log_not = 0x0e
to_u8 bit_and_op = 0x0f
to_u8 bit_or_op = 0x10
to_u8 bit_xor_op = 0x11
to_u8 bit_not = 0x12
to_u8 equal = 0x13
to_u8 less_signed = 0x14
to_u8 less_unsigned = 0x15
to_u8 ext = 0x16
to_u8 zero_ext = 0x2a
to_u8 ref8 = 0x17
to_u8 ref16 = 0x18
to_u8 ref32 = 0x19
to_u8 ref64 = 0x1a
to_u8 ref_float = 0x1b
to_u8 ref_double = 0x1c
to_u8 ref_long_double = 0x1d
to_u8 l_to_d = 0x1e
to_u8 d_to_l = 0x1f
to_u8 dup = 0x28
to_u8 swap = 0x2b
to_u8 pop_op = 0x29
to_u8 pick = 0x32
to_u8 rot = 0x33
to_u8 if_goto = 0x20
to_u8 goto = 0x21
to_u8 const8 = 0x22
to_u8 const16 = 0x23
to_u8 const32 = 0x24
to_u8 const64 = 0x25
to_u8 reg = 0x26
to_u8 getv = 0x2c
to_u8 setv = 0x2d
to_u8 trace = 0x0c
to_u8 trace_quick = 0x0d
to_u8 trace16 = 0x30
to_u8 tracev = 0x2e
to_u8 tracenz = 0x2f
to_u8 print_f = 0x34
to_u8 end = 0x27

abbrev all_bytecodes : List Bytecode
all_bytecodes =
    float ∷ add ∷ sub ∷ mul ∷ div_signed ∷ div_unsigned ∷ rem_signed ∷ rem_unsigned ∷ lsh
    ∷ rsh_signed ∷ rsh_unsigned ∷ log_not ∷ bit_and_op ∷ bit_or_op ∷ bit_xor_op ∷ bit_not ∷ equal
    ∷ less_signed ∷ less_unsigned ∷ ext ∷ zero_ext ∷ ref8 ∷ ref16 ∷ ref32 ∷ ref64 ∷ ref_float
    ∷ ref_double ∷ ref_long_double ∷ l_to_d ∷ d_to_l ∷ dup ∷ swap ∷ pop_op ∷ pick ∷ rot ∷ if_goto
    ∷ goto ∷ const8 ∷ const16 ∷ const32 ∷ const64 ∷ reg ∷ getv ∷ setv ∷ trace ∷ trace_quick
    ∷ trace16 ∷ tracev ∷ tracenz ∷ print_f ∷ end ∷ []

find : ℕ → List Bytecode → Option Bytecode
unfolding to_u8
find n [] = none
find n (op ∷ ops) = if to_u8 op == n then some op else find n ops

-- `static_cast<Bytecode>`; no operation for a number that the enumeration does not name.
unfoldable pub from_u8 : ℕ → Option Bytecode
unfolding find
from_u8 n = find n all_bytecodes

pub from_u8-to_u8 : (op : Bytecode) → from_u8 (to_u8 op) ≡ some op
unfolding from_u8 to_u8
from_u8-to_u8 float = refl
from_u8-to_u8 add = refl
from_u8-to_u8 sub = refl
from_u8-to_u8 mul = refl
from_u8-to_u8 div_signed = refl
from_u8-to_u8 div_unsigned = refl
from_u8-to_u8 rem_signed = refl
from_u8-to_u8 rem_unsigned = refl
from_u8-to_u8 lsh = refl
from_u8-to_u8 rsh_signed = refl
from_u8-to_u8 rsh_unsigned = refl
from_u8-to_u8 log_not = refl
from_u8-to_u8 bit_and_op = refl
from_u8-to_u8 bit_or_op = refl
from_u8-to_u8 bit_xor_op = refl
from_u8-to_u8 bit_not = refl
from_u8-to_u8 equal = refl
from_u8-to_u8 less_signed = refl
from_u8-to_u8 less_unsigned = refl
from_u8-to_u8 ext = refl
from_u8-to_u8 zero_ext = refl
from_u8-to_u8 ref8 = refl
from_u8-to_u8 ref16 = refl
from_u8-to_u8 ref32 = refl
from_u8-to_u8 ref64 = refl
from_u8-to_u8 ref_float = refl
from_u8-to_u8 ref_double = refl
from_u8-to_u8 ref_long_double = refl
from_u8-to_u8 l_to_d = refl
from_u8-to_u8 d_to_l = refl
from_u8-to_u8 dup = refl
from_u8-to_u8 swap = refl
from_u8-to_u8 pop_op = refl
from_u8-to_u8 pick = refl
from_u8-to_u8 rot = refl
from_u8-to_u8 if_goto = refl
from_u8-to_u8 goto = refl
from_u8-to_u8 const8 = refl
from_u8-to_u8 const16 = refl
from_u8-to_u8 const32 = refl
from_u8-to_u8 const64 = refl
from_u8-to_u8 reg = refl
from_u8-to_u8 getv = refl
from_u8-to_u8 setv = refl
from_u8-to_u8 trace = refl
from_u8-to_u8 trace_quick = refl
from_u8-to_u8 trace16 = refl
from_u8-to_u8 tracev = refl
from_u8-to_u8 tracenz = refl
from_u8-to_u8 print_f = refl
from_u8-to_u8 end = refl

if_some-cases {ℓ} :
    {A : Type ℓ} (b : Bool) (x a : A) (o : Option A)
    → (if b then some x else o) ≡ some a
    → (b ≡ true) × (x ≡ a) ⊎ (o ≡ some a)
if_some-cases true x a o h = inl (refl, ground arith)
if_some-cases false x a o h = inr h

find-IsSound : (n : ℕ) (op : Bytecode) (ops : List Bytecode) → find n ops ≡ some op → to_u8 op ≡ n
unfolding find
find-IsSound n op [] h = absurd (none-ne-some op h)
find-IsSound n op (x ∷ ops) h = elim (if_some-cases (to_u8 x == n) x op (find n ops) h) [
  | inl (same, e) ↦ ap to_u8 (sym e) ∙ (==_iff (to_u8 x) n).0 same
  | inr later ↦ find-IsSound n op ops later
]

-- A number is read as no other operation than its own.
pub from_u8-IsSound : (n : ℕ) (op : Bytecode) → from_u8 n ≡ some op → to_u8 op ≡ n
unfolding from_u8
from_u8-IsSound n op h = find-IsSound n op all_bytecodes h
