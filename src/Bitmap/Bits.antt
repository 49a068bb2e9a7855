-- ===== src/Bitmap/Bits.antt =====
-- A bitmap as a sequence of bits: what `bitmap_test` reads and `bitmap_set` writes.
use os_store.Base.{
  replicate, ℕ, zero, suc, ◌+◌, ◌-◌, ◌*◌, ◌/◌, ◌%◌, ◌^◌, ◌<◌, ◌≡◌, ap, ◌∙◌, Bool, List, [], ◌∷◌,
  ltb, leb, ◌==◌, if◌then◌else◌, length, get_or, set, length-set, get_or-set_self, get_or-set_ne,
  get_elem?-eq-get_or, done, panic, arith, Bool-cases, inl, inr, ==_iff, ==_of_ne,
}
use os_store.Bitmap.{Bitmap, bitmap_test, bitmap_set, test_bit, put_bit}
use os_store.Bitmap.Byte.{put_bit-lt, test_bit-put_bit}

abbrev pub Bytes : List ℕ → Type 0
Bytes [] = Unit
Bytes (b ∷ bs) = (b < 256) × Bytes bs

pub zero_Bytes : (n : ℕ) → Bytes (replicate n 0)
zero_Bytes zero = tt
zero_Bytes (suc n) = (omega arith, zero_Bytes n)

-- The buffer holds `length` bytes, and no index leaves the range of `int`.
pub record IsValid (map : Bitmap) : Type 0 where
  pub size : length map.bits ≡ map.length
  pub bytes : Bytes map.bits
  pub word : map.offset + map.length * 8 < 2 ^ 31

-- bit `i` of the bytes
unfoldable pub bit : List ℕ → ℕ → Bool
bit bits i = test_bit (get_or bits (i / 8) 0) (i % 8)

get_or-Bytes : (bs : List ℕ) (i : ℕ) → Bytes bs → get_or bs i 0 < 256
get_or-Bytes [] i h = omega arith
get_or-Bytes (b ∷ bs) zero h = h.0
get_or-Bytes (b ∷ bs) (suc i) h = get_or-Bytes bs i h.1

set-Bytes : (bs : List ℕ) (i b : ℕ) → Bytes bs → b < 256 → Bytes (set bs i b)
set-Bytes [] i b h lt = h
set-Bytes (c ∷ bs) zero b h lt = (lt, h.1)
set-Bytes (c ∷ bs) (suc i) b h lt = (h.0, set-Bytes bs i b h.1 lt)

-- the bitmap with bit `i` written
unfoldable pub put : Bitmap → ℕ → Bool → Bitmap
put map i v = record map {
  bits = set map.bits (i / 8) (put_bit (get_or map.bits (i / 8) 0) (i % 8) v);
}

pub put-IsValid : {map : Bitmap} (i : ℕ) (v : Bool) → IsValid map → IsValid (put map i v)
unfolding put
put-IsValid {map} i v ok = record {
  size = length-set map.bits (i / 8) _ ∙ ok.size;
  bytes = set-Bytes map.bits (i / 8) _ ok.bytes (
      put_bit-lt v (get_or map.bits (i / 8) 0) (i % 8) (get_or-Bytes map.bits (i / 8) ok.bytes)
        (omega arith));
  word = ok.word;
}

pub bit-put :
    {map : Bitmap} (i j : ℕ) (v : Bool)
    → IsValid map
    → i < map.length * 8
    → bit (put map i v).bits j ≡ (if j == i then v else bit map.bits j)
unfolding put bit
bit-put {map} i j v ok h = elim (Bool-cases (j / 8 == i / 8)) [
  | inl e ↦
      let q : j / 8 ≡ i / 8 = (==_iff (j / 8) (i / 8)).0 e in
      rw
        (
          q,
          get_or-set_self map.bits (i / 8) (put_bit (get_or map.bits (i / 8) 0) (i % 8) v) 0
              (omega (arith, ok.size)),
        )
        (test_bit-put_bit v (get_or map.bits (i / 8) 0) (i % 8)
            (get_or-Bytes map.bits (i / 8) ok.bytes) (omega arith) (j % 8) (omega arith)
          ∙ ap (λ t. if t then v else test_bit (get_or map.bits (i / 8) 0) (j % 8)) (ground arith))
  | inr n ↦ rw (
    get_or-set_ne map.bits (i / 8) (j / 8) (put_bit (get_or map.bits (i / 8) 0) (i % 8) v) 0
        (ground arith),
    ==_of_ne j i (λ e. ground arith),
  )
]

-- `bitmap_test` of a valid bitmap reads the bit of an index in range, and fails an assertion at
-- any other.
pub bitmap_test_lem :
    (map : Bitmap) (index : ℕ)
    → IsValid map
    → bitmap_test map index ≡ (
        if leb map.offset index
        then if ltb (index - map.offset) (map.length * 8)
          then done (bit map.bits (index - map.offset))
          else panic
        else panic)
unfolding bitmap_test bit
bitmap_test_lem map index ok =
    ground (arith, get_elem?-eq-get_or map.bits ((index - map.offset) / 8) 0, ok.size)

-- `bitmap_set` of an index in range writes that bit.
pub bitmap_set-put :
    {map : Bitmap} (i : ℕ) (v : Bool)
    → IsValid map
    → i < map.length * 8
    → bitmap_set map (map.offset + i) v ≡ done (put map i v)
unfolding bitmap_set put
bitmap_set-put {map} i v ok h =
    let e : map.offset + i - map.offset ≡ i = omega arith in
    ground (arith, e, get_elem?-eq-get_or map.bits (i / 8) 0, ok.size)

-- `bitmap_set` of an index in range returns a valid bitmap in which that bit has the value, and
-- every other bit is as before.
pub bitmap_set_lem :
    (map : Bitmap) (i : ℕ) (v : Bool)
    → IsValid map
    → i < map.length * 8
    → (m : Bitmap) × (bitmap_set map (map.offset + i) v ≡ done m)
      × IsValid m
      × ((j : ℕ) → bit m.bits j ≡ (if j == i then v else bit map.bits j))
bitmap_set_lem map i v ok h =
    (put map i v, bitmap_set-put i v ok h, put-IsValid i v ok, λ j. bit-put i j v ok h)
