-- ===== src/Core/LoadStore/Bytes.antt =====
-- Loads and stores over a memory of words: which bytes a store changes, and which value a load
-- returns.
use simple_riscv_emulator.Common.{
  ℕ, ◌+◌, ◌-◌, ◌*◌, ◌/◌, ◌%◌, ◌^◌, ◌≤◌, ◌<◌, ◌≡◌, ◌≢◌, refl, arith, ◌&&◌, ◌==◌, leb, ltb, u32,
  if◌then◌else◌, ◌<<<◌, bit_and, bit_and_mask, bit_and-align, true, Bool-cases, inl, inr,
}
use simple_riscv_emulator.Bitset.{take_bit}
use simple_riscv_emulator.Core.Memory.{MemoryInterface, Funct, LoadStoreOpcode, byte_of}
use simple_riscv_emulator.Core.Memory.WordMemory.{WordMemory}
use simple_riscv_emulator.Core.Outcome.{returns}
use simple_riscv_emulator.Core.LoadStore.{is_aligned, store_masked, store, load_store, store_result}
use simple_riscv_emulator.Core.LoadStore.Lanes.{
  store_size, mask_of, shifted_byte, store_mask-mask_of, take_bit-mask_of,
}

-- The size of what a function loads or stores; 0 for none.
abbrev pub access_size : Funct → ℕ
access_size Funct.none = 0
access_size Funct.load_byte = 1
access_size Funct.load_byte_unsigned = 1
access_size Funct.store_byte = 1
access_size Funct.load_halfword = 2
access_size Funct.load_halfword_unsigned = 2
access_size Funct.store_halfword = 2
access_size Funct.load_word = 4
access_size Funct.store_word = 4

-- `is_aligned` tests that the address is a multiple of the size.
pub is_aligned-mod :
    (a : ℕ) (f : Funct) → 0 < access_size f → is_aligned a f ≡ (a % access_size f == 0)
unfolding is_aligned
is_aligned-mod a Funct.none h = absurd (omega arith)
is_aligned-mod a Funct.load_byte h = ground arith
is_aligned-mod a Funct.load_byte_unsigned h = ground arith
is_aligned-mod a Funct.store_byte h = ground arith
is_aligned-mod a Funct.load_halfword h = ground (arith, bit_and_mask 1 a)
is_aligned-mod a Funct.load_halfword_unsigned h = ground (arith, bit_and_mask 1 a)
is_aligned-mod a Funct.store_halfword h = ground (arith, bit_and_mask 1 a)
is_aligned-mod a Funct.load_word h = ground (arith, bit_and_mask 2 a)
is_aligned-mod a Funct.store_word h = ground (arith, bit_and_mask 2 a)

pub word_address : (a : ℕ) → a < 2 ^ 32 → bit_and a 0xffff_fffc ≡ a / 4 * 4
word_address a h = bit_and-align 32 2 a (omega arith) h

module _ {S : Type 0} (m : MemoryInterface S) (w : WordMemory m) where
  open w use {IsReady, contents}

  -- The byte at an address.
  abbrev pub byte_at : S → ℕ → ℕ
  byte_at s x = byte_of (x % 4) (contents s (x / 4))

  -- A word-sized slot that holds the aligned access.
  pub record IsAccess (s : S) (size a : ℕ) : Type 0 where
    pub sized : 0 < size
    pub aligned : a % size ≡ 0
    pub address : a < 2 ^ 32
    pub ready : IsReady s (a / 4 * 4)

  mask-pos : (f : Funct) (o : ℕ) → 0 < store_size f → o < 4 → mask_of (store_size f) o ≢ 0
  mask-pos f o h k z =
      let first = take_bit-mask_of f h o o k k in ground (arith, take_bit-zero o, z, first)
    where
      take_bit-zero : (o : ℕ) → take_bit o 0 ≡ 0
      take_bit-zero o = omega arith

  store-size : (f : Funct) → 0 < store_size f → access_size f ≡ store_size f
  store-size Funct.store_byte h = refl
  store-size Funct.store_halfword h = refl
  store-size Funct.store_word h = refl
  store-size _ h = absurd (omega arith)

  offset_aligned :
      (f : Funct) (a : ℕ) → 0 < store_size f → a % store_size f ≡ 0 → a % 4 % store_size f ≡ 0
  offset_aligned Funct.store_byte a h e = omega arith
  offset_aligned Funct.store_halfword a h e = omega arith
  offset_aligned Funct.store_word a h e = omega arith
  offset_aligned _ a h e = absurd (omega arith)

  store_aligned :
      (s : S) (f : Funct) (a v : ℕ)
      → IsAccess s (store_size f) a
      → store m s f a v ≡ (
        (m.write s (a / 4 * 4) (u32 (v <<< (a % 4 * 8))) (mask_of (store_size f) (a % 4))).0,
        returns 0,
      )
  unfolding store store_masked store_result
  store_aligned s f a v h =
      let n = store_size f in
      let o = a % 4 in
      let same = store-size f h.sized in
      let fits : is_aligned a f ≡ true =
        rw (is_aligned-mod a f (rw same h.sized), same, h.aligned) refl in
      let mask =
        store_mask-mask_of f o h.sized (omega arith) (offset_aligned f a h.sized h.aligned) in
      let written =
        w.write_done s (a / 4 * 4) (u32 (v <<< (o * 8))) (mask_of n o) h.ready
          (mask-pos f o h.sized (omega arith)) in
      rw (fits, bit_and_mask 2 a, mask, bit_and_mask 2 a, word_address a h.address, written) refl

  in_word : (f : Funct) (a : ℕ) → 0 < store_size f → a % store_size f ≡ 0 → a % 4 + store_size f ≤ 4
  in_word Funct.store_byte a h e = omega arith
  in_word Funct.store_halfword a h e = omega arith
  in_word Funct.store_word a h e = omega arith
  in_word _ a h e = absurd (omega arith)

  same_bytes :
      (a x n : ℕ)
      → a % 4 + n ≤ 4
      → ((x / 4 == a / 4 * 4 / 4) && (leb (a % 4) (x % 4) && ltb (x % 4) (a % 4 + n)))
        ≡ (leb a x && ltb x (a + n))
  same_bytes a x n h = ground arith

  byte_offset :
      (a x n : ℕ)
      → a % 4 + n ≤ 4
      → (leb a x && ltb x (a + n)) ≡ true
      → (a % 4 ≤ x % 4) × (x % 4 - a % 4 ≡ x - a)
  byte_offset a x n h e =
      let below : a ≤ x = ground arith in
      let above : x < a + n = ground arith in (omega arith, omega arith)

  -- An aligned store to a word of the memory that is ready returns, and sets the bytes from its
  -- address on to those of the value, as many as its size; it changes no other byte of the memory.
  pub store-byte_at :
      (s : S) (f : Funct) (a v x : ℕ)
      → IsAccess s (store_size f) a
      → ((load_store m s LoadStoreOpcode.store f a v).1 ≡ returns 0)
        × (byte_at (load_store m s LoadStoreOpcode.store f a v).0 x
            ≡ (if leb a x && ltb x (a + store_size f) then byte_of (x - a) v else byte_at s x))
  unfolding load_store
  store-byte_at s f a v x h =
      let n = store_size f in
      let o = a % 4 in
      let k = x % 4 in
      let d = u32 (v <<< (o * 8)) in
      let bytes =
        w.write_bytes s (a / 4 * 4) d (mask_of n o) (x / 4) k h.ready
          (mask-pos f o h.sized (omega arith)) (omega arith) in
      let lane = take_bit-mask_of f h.sized o k (omega arith) (omega arith) in
      let value = shifted_byte v o k (omega arith) (omega arith) in
      rw store_aligned (
        refl,
        rw (bytes, lane)
            (rw (same_bytes a x n (in_word f a h.sized h.aligned))
              (elim (Bool-cases (leb a x && ltb x (a + n))) [
                | inl hit ↦
                    let (le, e) = byte_offset a x n (in_word f a h.sized h.aligned) hit in
                    rw (hit, value le, e) refl
                | inr miss ↦ rw miss refl
              ])),
      )

  -- It leaves every word of the memory ready that was.
  pub store-IsReady :
      (s : S) (f : Funct) (a v b : ℕ)
      → IsAccess s (store_size f) a
      → IsReady s b
      → IsReady (load_store m s LoadStoreOpcode.store f a v).0 b
  unfolding load_store
  store-IsReady s f a v b h ready = rw (store_aligned s f a v h) (
      w.write_ready s (a / 4 * 4) b (u32 (v <<< (a % 4 * 8))) (mask_of (store_size f) (a % 4))
        h.ready ready (mask-pos f (a % 4) h.sized (omega arith)))
