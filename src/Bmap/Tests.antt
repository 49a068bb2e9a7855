-- ===== src/Bmap/Tests.antt =====
-- Runs of fs/bmap.c on a small disk.
use os_store.Base.{
  ℕ, ◌≡◌, refl, true, false, [], ◌∷◌, ◌==◌, if◌then◌else◌, ◌&&◌, arith, List, some, map, replicate,
  done, ◌>>=◌,
}
use os_store.Bitmap.{bitmap_make, bitmap_scan, bitmap_test, bitmap_set}
use os_store.Bmap.{Super, balloc_loop, balloc, Disk, fill, reckon, bmap}
use os_store.Bmap.Lookup.{bmap-follow}

-- a bitmap whose first seven bits are set
abbrev seven : List ℕ
seven = 127 ∷ replicate 1023 0

-- The data blocks begin at 64; the first bitmap is `seven`.
abbrev super : Super
super = record {
  zones = 4000;
  firstdatazone = 64;
  zmaps = map some (seven ∷ replicate 1024 0 ∷ []);
}

abbrev disk : Disk Super
disk = record {
  zone = λ i. if i == 8 then 60 else 0;
  block = λ b i. if b == 60 && i == 1 then 61 else if b == 61 && i == 2 then 99 else 0;
  maps = super;
}

bmap-follow_example : bmap balloc 1033 false disk ≡ done (99, disk)
bmap-follow_example = bmap-follow balloc 1033 disk (omega arith)

-- two blocks are allocated for the first block behind the direct ones
bmap-two_tables :
    bmap balloc 7 true disk >>= (λ (v, s). done (v ∷ s.zone 7 ∷ s.block 70 0 ∷ []))
    ≡ done (71 ∷ 70 ∷ 71 ∷ [])
unfolding bmap reckon fill balloc balloc_loop bitmap_make bitmap_scan bitmap_test bitmap_set
bmap-two_tables = refl
