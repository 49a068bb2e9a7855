-- ===== src/Bmap/Alloc.antt =====
-- balloc of fs/bmap.c: which block it gives.
use os_store.Base.{
  ℕ, ◌+◌, ◌-◌, ◌*◌, ◌%◌, ◌^◌, ◌<◌, ◌≤◌, ◌≡◌, true, false, ◌⊎◌, Option, none, some, List, [], ◌∷◌,
  ◌++◌, map, length, ltb, ◌==◌, if◌then◌else◌, Outcome, done, panic,
}
use os_store.Bitmap.{Bitmap}
use os_store.Bitmap.Bits.{Bytes, bit}
use os_store.Bmap.{Super, eof, balloc}

-- the first `n` bits are set
abbrev pub IsSetTo : List ℕ → ℕ → Type 0
IsSetTo d n = (j : ℕ) → j < n → bit d j ≡ true

-- the bitmaps are blocks of bytes
abbrev pub AreBlocks : List (List ℕ) → Type 0
AreBlocks [] = Unit {0}
AreBlocks (d ∷ ds) = ((length d ≡ 1024) × Bytes d) × AreBlocks ds

abbrev pub AllFull : List (List ℕ) → Type 0
AllFull [] = Unit {0}
AllFull (d ∷ ds) = IsSetTo d 8192 × AllFull ds

-- `start` is the first clear bit of the block `d`, and `d'` is the block with that bit set
pub record Takes (d : List ℕ) (start : ℕ) (d' : List ℕ) : Type 0 where
  pub inside : start < 8192
  pub clear : bit d start ≡ false
  pub before : IsSetTo d start
  pub after : (j : ℕ) → bit d' j ≡ (if j == start then true else bit d j)

-- what the loop over the bitmaps gives, from bitmap `i` on
data Allocates (first zones : ℕ)
    : ℕ → List (List ℕ) → Outcome (Option ℕ × List (Option (List ℕ))) → Type 0 where
  all_full :
      (i : ℕ) (ds : List (List ℕ))
      → AllFull ds
      → Allocates first zones i ds (done (none, map some ds))
  gives :
      (i b start : ℕ) (full rest : List (List ℕ)) (d d' : List ℕ)
      → AllFull full
      → Takes d start d'
      → b ≡ start + ((i + length full) * 1024 + first - 1)
      → ltb b zones ≡ true
      → Allocates first zones i (full ++ (d ∷ rest)) (done (some b, map some (full ++ (d' ∷ rest))))
  beyond :
      (i b start : ℕ) (full rest : List (List ℕ)) (d d' : List ℕ)
      → AllFull full
      → Takes d start d'
      → b ≡ start + ((i + length full) * 1024 + first - 1)
      → ltb b zones ≡ false
      → Allocates first zones i (full ++ (d ∷ rest)) panic

module _ (lead zones : ℕ) (some_first : 1 ≤ lead) (small : lead < 2 ^ 16) where
  abbrev from : ℕ → ℕ
  from i = (i * 1024 + lead + 2 ^ 32 - 1) % 2 ^ 32

  abbrev bitmap_at : ℕ → List ℕ → Bitmap
  bitmap_at i d = record { bits = d; length = 1024; offset = from i }

-- what a call gives that takes bit `start` behind the bitmaps `full`, where `zmaps` are the bitmaps with that bit
abbrev pub given :
    Super → (full : List (List ℕ)) → (start : ℕ) → List (List ℕ) → Outcome (ℕ × Super)
given sb full start zmaps =
    let b = start + (length full * 1024 + sb.firstdatazone - 1) in
    if ltb b sb.zones then done (b, record sb { zmaps = map some zmaps }) else panic

-- The bitmaps `ds` are all full, or a first one is not.
abbrev pub Allocated : Super → List (List ℕ) → Type 0
Allocated sb ds =
    (AllFull ds × (balloc sb ≡ done (eof, sb)))
    ⊎ ((full : List (List ℕ)) × (d : List ℕ) × (rest : List (List ℕ)) × (start : ℕ) × (d' : List ℕ)
        × (ds ≡ full ++ (d ∷ rest))
        × AllFull full
        × Takes d start d'
        × (balloc sb ≡ given sb full start (full ++ (d' ∷ rest))))
