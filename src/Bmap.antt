-- ===== src/Bmap.antt =====
-- balloc and bmap of fs/bmap.c: the block of the disk that holds a block of a file. The contents of a block are
-- the 16-bit numbers in it. The buffer cache is not modelled, so a block that is read is what was last written to
-- it. bmap is over any allocator, of which nothing is assumed; in the program it is `balloc`, which works on the
-- super block that `get_super` finds for the device. Its calls of the buffer cache, which mark the bitmap as
-- changed and write it to the disk, are left out.
pub mod Slots
pub mod Lookup
pub mod Alloc
mod Tests
use os_store.Base.{
  ℕ, zero, suc, ◌+◌, ◌-◌, ◌*◌, ◌/◌, ◌%◌, ◌^◌, Bool, true, false, not, ◌&&◌, Option, none, some,
  List, [], ◌∷◌, ltb, ◌==◌, if◌then◌else◌, Outcome, done, panic, ◌>>=◌, ◌>>◌, assert,
}
use os_store.Bitmap.{bitmap_make, bitmap_scan}

-- `BLOCK_SIZE`
abbrev pub block_size : ℕ
block_size = 1024

-- The fields of the super block that `balloc` uses: two of its descriptor, and the data of the buffers of the
-- bitmaps, `none` for NULL.
pub record Super : Type 0 where
  pub zones : ℕ
  pub firstdatazone : ℕ
  pub zmaps : List (Option (List ℕ))

-- the loop over the bitmaps, from the one at `i` on; the result `none` is `EOF`
unfoldable pub balloc_loop :
    (firstdatazone zones i : ℕ)
    → List (Option (List ℕ))
    → Outcome (Option ℕ × List (Option (List ℕ)))
balloc_loop firstdatazone zones i [] = done (none, [])
balloc_loop firstdatazone zones i (none ∷ zmaps) = panic
balloc_loop firstdatazone zones i (some bytes ∷ zmaps) = do
  (bit, map) ←
      bitmap_scan
        (bitmap_make bytes block_size ((i * block_size + firstdatazone + 2 ^ 32 - 1) % 2 ^ 32)) 1
  elim bit [
    | some b ↦ assert (ltb b zones) >> done (some b, some map.bits ∷ zmaps)
    | none ↦ balloc_loop firstdatazone zones (i + 1) zmaps >>= λ (r, zmaps').
        done (r, some map.bits ∷ zmaps')
  ]

-- `EOF` as an `idx_t`
abbrev pub eof : ℕ
eof = 2 ^ 32 - 1

unfoldable pub balloc : Super → Outcome (ℕ × Super)
unfolding balloc_loop
balloc sb = do
  (bit, zmaps) ← balloc_loop sb.firstdatazone sb.zones 0 sb.zmaps
  done (elim bit [ none ↦ eof | some b ↦ b ], record sb { zmaps = zmaps })

abbrev pub direct_block : ℕ
direct_block = 7

abbrev pub block_indexes : ℕ
block_indexes = 512

abbrev pub indirect1_block : ℕ
indirect1_block = block_indexes

abbrev pub indirect2_block : ℕ
indirect2_block = indirect1_block * indirect1_block

abbrev pub total_block : ℕ
total_block = direct_block + indirect1_block + indirect2_block

-- the zones of the inode, the blocks of the disk as indexes, and the bitmaps
pub record Disk (A : Type 0) : Type 0 where
  pub zone : ℕ → ℕ
  pub block : ℕ → ℕ → ℕ
  pub maps : A

module _ {A : Type 0} (balloc : A → Outcome (ℕ × A)) where
  -- `array[index]`, where `array` is the inode's own (`none`) or a block
  abbrev pub get : Option ℕ → ℕ → Disk A → ℕ
  get none index s = s.zone index
  get (some b) index s = s.block b index

  abbrev pub put : Option ℕ → ℕ → ℕ → Disk A → Disk A
  put none index v s = record s { zone = λ i. if i == index then v % 2 ^ 16 else s.zone i }
  put (some b) index v s = record s {
    block = λ c i. if c == b && i == index then v % 2 ^ 16 else s.block c i;
  }

  -- a missing index is allocated where the caller asks for it
  unfoldable pub fill : (create : Bool) → Option ℕ → ℕ → Disk A → Outcome (Disk A)
  fill create array index s = elim (get array index s == 0 && create) [
    | true ↦ balloc s.maps >>= λ (v, maps). done (put array index v (record s { maps = maps }))
    | false ↦ done s
  ]

  -- the loop over the levels
  unfoldable pub reckon :
      (level : ℕ)
      → (create : Bool) → Option ℕ
      → (index block divider : ℕ) → Disk A
      → Outcome (ℕ × Disk A)
  unfolding fill
  reckon zero create array index block divider s =
      fill create array index s >>= λ s'. done (get array index s', s')
  reckon (suc level) create array index block divider s = fill create array index s >>= λ s'.
      elim (get array index s' == 0) [
        | true ↦ done (0, s')
        | false ↦
            reckon level create (some (get array index s')) (block / divider) (block % divider)
              (divider / block_indexes) s'
      ]

  unfoldable pub bmap : (block : ℕ) → (create : Bool) → Disk A → Outcome (ℕ × Disk A)
  unfolding reckon
  bmap block create s = assert (ltb block total_block) >> elim (ltb block direct_block) [
    | true ↦ reckon 0 create none block block 1 s
    | false ↦ elim (ltb (block - direct_block) indirect1_block) [
      | true ↦ reckon 1 create none direct_block (block - direct_block) 1 s
      | false ↦
          let rest = block - direct_block - indirect1_block in
          assert (ltb rest indirect2_block)
          >> reckon 2 create none (direct_block + 1) rest block_indexes s
    ]
  ]
