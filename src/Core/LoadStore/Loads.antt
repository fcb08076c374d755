-- ===== src/Core/LoadStore/Loads.antt =====
-- What a load returns: the bytes from its address on, extended to a word; and that it returns what
-- a store has put there.
use simple_riscv_emulator.Common.{
  ℕ, zero, suc, ◌+◌, ◌-◌, ◌*◌, ◌/◌, ◌%◌, ◌^◌, ◌<◌, ◌≡◌, refl, arith, true, leb, ltb, ◌∙◌, ap, ◌⊎◌,
  inl, inr, bit_and_mask, to_u32, i8, i16, ◌&&◌,
}
use simple_riscv_emulator.Core.Memory.{MemoryInterface, Funct, LoadStoreOpcode, byte_of}
use simple_riscv_emulator.Core.Memory.WordMemory.{WordMemory}
use simple_riscv_emulator.Core.Outcome.{returns}
use simple_riscv_emulator.Core.LoadStore.{load_store, load, is_aligned, load_value, load_result}
use simple_riscv_emulator.Core.LoadStore.Lanes.{store_size}
use simple_riscv_emulator.Core.LoadStore.Bytes.{
  access_size, byte_at, IsAccess, is_aligned-mod, word_address, store-byte_at, store-IsReady,
}

-- The number of bytes that a load reads; 0 for what is no load.
abbrev pub load_size : Funct → ℕ
load_size Funct.load_byte = 1
load_size Funct.load_byte_unsigned = 1
load_size Funct.load_halfword = 2
load_size Funct.load_halfword_unsigned = 2
load_size Funct.load_word = 4
load_size _ = 0

-- The word that a load makes of the bytes it reads.
abbrev pub extend : Funct → ℕ → ℕ
extend Funct.load_byte x = to_u32 (i8 x)
extend Funct.load_halfword x = to_u32 (i16 x)
extend _ x = x

-- The number with the bytes from an address on, the lowest first.
abbrev pub little_endian : (ℕ → ℕ) → ℕ → ℕ → ℕ
little_endian bytes a zero = 0
little_endian bytes a (suc n) = bytes a + 2 ^ 8 * little_endian bytes (suc a) n

little_endian-ext :
    (f g : ℕ → ℕ) (a b n : ℕ)
    → ((k : ℕ) → k < n → f (a + k) ≡ g (b + k))
    → little_endian f a n ≡ little_endian g b n
little_endian-ext f g a b zero h = refl
little_endian-ext f g a b (suc n) h =
    let at_f : f (a + 0) ≡ f a = ap f (omega arith) in
    let at_g : g (b + 0) ≡ g b = ap g (omega arith) in
    let first = h 0 (omega arith) in
    let rest = little_endian-ext f g (suc a) (suc b) n (λ k lt.
      let ea : suc a + k ≡ a + suc k = omega arith in
      let eb : suc b + k ≡ b + suc k = omega arith in rw (ea, eb) (h (suc k) (omega arith))) in
    omega arith

-- The bytes of a value in order are the value, cut to their number.
little_endian-byte_of :
    (f : Funct) (v : ℕ)
    → little_endian (λ k. byte_of k v) 0 (store_size f) ≡ v % 2 ^ (8 * store_size f)
little_endian-byte_of Funct.store_byte v = omega arith
little_endian-byte_of Funct.store_halfword v = omega arith
little_endian-byte_of Funct.store_word v = omega arith
little_endian-byte_of Funct.none v = omega arith
little_endian-byte_of Funct.load_byte v = omega arith
little_endian-byte_of Funct.load_halfword v = omega arith
little_endian-byte_of Funct.load_word v = omega arith
little_endian-byte_of Funct.load_byte_unsigned v = omega arith
little_endian-byte_of Funct.load_halfword_unsigned v = omega arith

load-size : (f : Funct) → 0 < load_size f → access_size f ≡ load_size f
load-size Funct.load_byte h = refl
load-size Funct.load_halfword h = refl
load-size Funct.load_word h = refl
load-size Funct.load_byte_unsigned h = refl
load-size Funct.load_halfword_unsigned h = refl
load-size _ h = absurd (omega arith)

-- What the `switch` of a load makes of the word.
load_value-extend :
    (f : Funct) (o value : ℕ)
    → 0 < load_size f
    → o < 4
    → o % load_size f ≡ 0
    → value < 2 ^ 32
    → load_value f (o * 8) value ≡ returns (extend f (value / 2 ^ (8 * o) % 2 ^ (8 * load_size f)))
unfolding load_value
load_value-extend Funct.load_byte o value h lt e w = ground arith
load_value-extend Funct.load_halfword o value h lt e w = ground arith
load_value-extend Funct.load_word o value h lt e w =
    let z : o ≡ 0 = omega arith in rw z (ap returns (omega arith))
load_value-extend Funct.load_byte_unsigned o value h lt e w = ground arith
load_value-extend Funct.load_halfword_unsigned o value h lt e w = ground arith
load_value-extend _ o value h lt e w = absurd (omega arith)

byte_in : ℕ → ℕ → ℕ
byte_in a x = x / 2 ^ (8 * (a % 4)) % 2 ^ 8

halfword_bytes :
    (a x : ℕ)
    → a % 2 ≡ 0
    → byte_in a x + 2 ^ 8 * (byte_in (suc a) x + 2 ^ 8 * 0) ≡ x / 2 ^ (8 * (a % 4)) % 2 ^ 16
unfolding byte_in
halfword_bytes a x e =
    let place : (a % 4 ≡ 0) × (suc a % 4 ≡ 1) ⊎ (a % 4 ≡ 2) × (suc a % 4 ≡ 3) = ground arith in
    elim place [
      | inl (e0, e1) ↦ rw (e0, e1) (omega arith)
      | inr (e2, e3) ↦ rw (e2, e3) (omega arith)
    ]

word_bytes :
    (a x : ℕ)
    → a % 4 ≡ 0
    → x < 2 ^ 32
    → byte_in a x
        + 2 ^ 8
          * (byte_in (suc a) x
              + 2 ^ 8
                * (byte_in (suc (suc a)) x + 2 ^ 8 * (byte_in (suc (suc (suc a))) x + 2 ^ 8 * 0)))
      ≡ x / 2 ^ (8 * (a % 4)) % 2 ^ 32
unfolding byte_in
word_bytes a x e lt =
    let e1 : suc a % 4 ≡ 1 = omega arith in
    let e2 : suc (suc a) % 4 ≡ 2 = omega arith in
    let e3 : suc (suc (suc a)) % 4 ≡ 3 = omega arith in rw (e, e1, e2, e3) (omega arith)

module _ {S : Type 0} (m : MemoryInterface S) (w : WordMemory m) where
  open w use {IsReady, contents}

  bytes_of_word :
      (s : S) (f : Funct) (a : ℕ)
      → 0 < load_size f
      → a % load_size f ≡ 0
      → contents s (a / 4) < 2 ^ 32
      → little_endian (byte_at m w s) a (load_size f)
        ≡ contents s (a / 4) / 2 ^ (8 * (a % 4)) % 2 ^ (8 * load_size f)
  unfolding byte_in
  bytes_of_word s Funct.load_byte a h e lt = omega arith
  bytes_of_word s Funct.load_byte_unsigned a h e lt = omega arith
  bytes_of_word s Funct.load_halfword a h e lt =
      let same : suc a / 4 ≡ a / 4 = omega arith in
      rw same (halfword_bytes a (contents s (a / 4)) e)
  bytes_of_word s Funct.load_halfword_unsigned a h e lt =
      let same : suc a / 4 ≡ a / 4 = omega arith in
      rw same (halfword_bytes a (contents s (a / 4)) e)
  bytes_of_word s Funct.load_word a h e lt =
      let same1 : suc a / 4 ≡ a / 4 = omega arith in
      let same2 : suc (suc a) / 4 ≡ a / 4 = omega arith in
      let same3 : suc (suc (suc a)) / 4 ≡ a / 4 = omega arith in
      rw (same1, same2, same3) (word_bytes a (contents s (a / 4)) e lt)
  bytes_of_word s _ a h e lt = absurd (omega arith)

  offset-aligned :
      (f : Funct) (a : ℕ) → 0 < load_size f → a % load_size f ≡ 0 → a % 4 % load_size f ≡ 0
  offset-aligned Funct.load_byte a h e = omega arith
  offset-aligned Funct.load_byte_unsigned a h e = omega arith
  offset-aligned Funct.load_halfword a h e = omega arith
  offset-aligned Funct.load_halfword_unsigned a h e = omega arith
  offset-aligned Funct.load_word a h e = omega arith
  offset-aligned _ a h e = absurd (omega arith)

  -- An aligned load from a word of the memory that is ready returns the bytes from its address on,
  -- as many as its size, the lowest first, with the sign extended for `load_byte` and
  -- `load_halfword`.
  pub load-little_endian :
      (s : S) (f : Funct) (a v : ℕ)
      → IsAccess m w s (load_size f) a
      → (load_store m s LoadStoreOpcode.load f a v).1
        ≡ returns (extend f (little_endian (byte_at m w s) a (load_size f)))
  unfolding load_store load load_result
  load-little_endian s f a v h =
      let same = load-size f h.sized in
      let fits : is_aligned a f ≡ true =
        rw (is_aligned-mod a f (rw same h.sized), same, h.aligned) refl in
      let word = w.is_word s (a / 4 * 4) h.ready in
      let index : a / 4 * 4 / 4 ≡ a / 4 = omega arith in
      let value =
        load_value-extend f (a % 4) (contents s (a / 4)) h.sized (omega arith)
          (offset-aligned f a h.sized h.aligned) (rw (← index) word) in
      let bytes = bytes_of_word s f a h.sized h.aligned (rw (← index) word) in
      rw
        (
          fits,
          bit_and_mask 2 a,
          word_address a h.address,
          w.read_value s (a / 4 * 4) h.ready,
          index,
          value,
          bytes,
        )
        refl

  -- After an aligned store to a word of the memory that is ready, a load of the same size at the
  -- same address returns the stored value, cut to that size, with its sign extended for the signed
  -- loads.
  pub load-store :
      (s : S) (f g : Funct) (a v u : ℕ)
      → load_size g ≡ store_size f
      → IsAccess m w s (store_size f) a
      → (load_store m (load_store m s LoadStoreOpcode.store f a v).0 LoadStoreOpcode.load g a u).1
        ≡ returns (extend g (v % 2 ^ (8 * store_size f)))
  load-store s f g a v u same h =
      let after = (load_store m s LoadStoreOpcode.store f a v).0 in
      let access : IsAccess m w after (load_size g) a = rw same record {
        sized = h.sized;
        aligned = h.aligned;
        address = h.address;
        ready = store-IsReady m w s f a v (a / 4 * 4) h h.ready;
      } in
      let stored : (k : ℕ) → k < store_size f → byte_at m w after (a + k) ≡ byte_of (0 + k) v =
        λ k lt.
          let (_, e) = store-byte_at m w s f a v (a + k) h in
          let inside : (leb a (a + k) && ltb (a + k) (a + store_size f)) ≡ true = ground arith in
          let offset : a + k - a ≡ 0 + k = omega arith in e ∙ rw (inside, offset) refl in
      let bytes =
        little_endian-ext (byte_at m w after) (λ k. byte_of k v) a 0 (store_size f) stored in
      load-little_endian after g a u access ∙ rw (same, bytes, little_endian-byte_of f v) refl
