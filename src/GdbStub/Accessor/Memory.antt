-- ===== src/GdbStub/Accessor/Memory.antt =====
-- lib/gdb-stub/accessor.cpp: `Memory_accessor` on a memory of words.
use simple_riscv_emulator.Common.{
  below_four, ℕ, ◌*◌, ◌/◌, ◌^◌, ◌%◌, ◌<◌, Bool, true, false, Option, some, ◌==◌, ◌&&◌,
  if◌then◌else◌, bit_and, bit_and_mask, bit_and-align, u32, ◌<<<◌, Expected, ok, unexpected, ◌≡◌,
  ◌≢◌, inl, inr, refl, sym, ap, ◌∙◌, arith, Bool-cases,
}
use simple_riscv_emulator.Bitset.{take_bit}
use simple_riscv_emulator.Core.Memory.{MemoryInterface, MemoryError, byte_of}
use simple_riscv_emulator.Core.Memory.WordMemory.{WordMemory}
use simple_riscv_emulator.GdbStub.Accessor.{align, has_value, byte_in, read, write}

low_bits : (a : ℕ) → bit_and a 0x3 ≡ a % 4
low_bits a = bit_and_mask 2 a

align_down : (a : ℕ) → a < 2 ^ 32 → align a ≡ a / 4 * 4
align_down a h = bit_and-align 32 2 a (omega arith) h

-- The mask chooses the byte that is written, and the data holds the value there.
mask_bit : (j k : ℕ) → j < 4 → k < 4 → (take_bit k (1 <<< j) == 1) ≡ (k == j)
mask_bit j k h l =
    below_four (λ j'. (take_bit k (1 <<< j') == 1) ≡ (k == j'))
      (below_four (λ k'. (take_bit k' (1 <<< 0) == 1) ≡ (k' == 0)) refl refl refl refl k l)
      (below_four (λ k'. (take_bit k' (1 <<< 1) == 1) ≡ (k' == 1)) refl refl refl refl k l)
      (below_four (λ k'. (take_bit k' (1 <<< 2) == 1) ≡ (k' == 2)) refl refl refl refl k l)
      (below_four (λ k'. (take_bit k' (1 <<< 3) == 1) ≡ (k' == 3)) refl refl refl refl k l) j h

mask-ne-zero : (j : ℕ) → j < 4 → 1 <<< j ≢ 0
mask-ne-zero j h =
    below_four (λ j'. 1 <<< j' ≢ 0) (omega arith) (omega arith) (omega arith) (omega arith) j h

data_byte : (j v : ℕ) → j < 4 → v < 256 → byte_of j (u32 (v <<< (j * 8))) ≡ v
data_byte j v h l =
    below_four (λ j'. byte_of j' (u32 (v <<< (j' * 8))) ≡ v) (omega arith) (omega arith)
      (omega arith) (omega arith) j h

same_address : (a b : ℕ) → b ≡ a → ((b / 4 == a / 4) && (b % 4 == a % 4)) ≡ true
same_address a b e = ground arith

other_address : (a b : ℕ) → b ≢ a → ((b / 4 == a / 4) && (b % 4 == a % 4)) ≡ false
other_address a b e = ground arith

-- Which byte the two tests choose, by its address.
chosen :
    (a b v mask d old : ℕ) {new : ℕ}
    → a / 4 * 4 / 4 ≡ a / 4
    → (take_bit (b % 4) mask == 1) ≡ (b % 4 == a % 4)
    → byte_of (a % 4) d ≡ v
    → new ≡ (
        if (b / 4 == a / 4 * 4 / 4) && (take_bit (b % 4) mask == 1) then byte_of (b % 4) d else old)
    → new ≡ (if b == a then v else old)
chosen a b v mask d old word bit byte e =
    e
    ∙ rw (word, bit)
        (elim (Bool-cases (b == a)) [
          | inl t ↦
              let same : b ≡ a = ground arith in
              rw (same_address a b same, t) (ap (λ x. byte_of (x % 4) d) same ∙ byte)
          | inr f ↦ let ne : b ≢ a = ground arith in rw (other_address a b ne, f) refl
        ])

if_byte :
    (c : Bool) (v old new : ℕ) {o : Option ℕ}
    → o ≡ some old
    → new ≡ (if c then v else old)
    → (if c then some v else o) ≡ some new
if_byte true v old new h e = ap some (sym e)
if_byte false v old new h e = h ∙ ap some (sym e)

module _ {S : Type 0} {m : MemoryInterface S} (w : WordMemory m) where
  -- The byte at an address, by the memory's words.
  abbrev pub byte_at : S → ℕ → ℕ
  byte_at s a = byte_of (a % 4) (w.contents s (a / 4))

  byte_in-ok :
      (o : Expected ℕ MemoryError) (word k : ℕ) → o ≡ ok word → byte_in o k ≡ some (byte_of k word)
  unfolding byte_in
  byte_in-ok (ok x) word k e = ground (arith, e)
  byte_in-ok (unexpected x) word k e = ground (arith, e)

  read-byte_at :
      (s : S) (a : ℕ) → a < 2 ^ 32 → w.IsReady s (a / 4 * 4) → (read m s a).1 ≡ some (byte_at s a)
  unfolding read
  read-byte_at s a h r =
      let word : a / 4 * 4 / 4 ≡ a / 4 = omega arith in
      rw (align_down a h, low_bits a)
        (byte_in-ok (m.read s (a / 4 * 4)).1 (w.contents s (a / 4)) (a % 4)
          (w.read_value s (a / 4 * 4) r ∙ ap (λ i. ok (w.contents s i)) word))

  -- In a memory of words, a byte that the debugger writes at an address of a word that is ready, of
  -- whatever alignment, is reported as written and is read back there, and the byte at any other
  -- address that is ready reads as before.
  pub read-write :
      (s : S) (a b v : ℕ)
      → a < 2 ^ 32
      → b < 2 ^ 32
      → v < 256
      → w.IsReady s (a / 4 * 4)
      → w.IsReady s (b / 4 * 4)
      → ((write m s a v).1 ≡ true)
        × ((read m (write m s a v).0 b).1 ≡ (if b == a then some v else (read m s b).1))
  unfolding write
  read-write s a b v ha hb hv ra rb =
      let j = a % 4 in
      let d = u32 (v <<< (j * 8)) in
      let mask = 1 <<< j in
      let low : j < 4 = omega arith in
      let low' : b % 4 < 4 = omega arith in
      let nz = mask-ne-zero j low in
      let word : a / 4 * 4 / 4 ≡ a / 4 = omega arith in
      let s' = (m.write s (a / 4 * 4) d mask).0 in
      let ready = w.write_ready s (a / 4 * 4) (b / 4 * 4) d mask ra rb nz in
      let bytes = w.write_bytes s (a / 4 * 4) d mask (b / 4) (b % 4) ra nz low' in
      (
        rw (align_down a ha, low_bits a) (ap has_value (w.write_done s (a / 4 * 4) d mask ra nz)),
        rw (align_down a ha, low_bits a)
            (read-byte_at s' b hb ready
              ∙ sym (
                  if_byte (b == a) _ _ _ (read-byte_at s b hb rb) (
                    chosen a b v _ _ (byte_of (b % 4) (w.contents s (b / 4))) word
                      (mask_bit j (b % 4) low low') (data_byte j v low hv) bytes))),
      )
