-- ===== src/Bitmap/Tests.antt =====
-- Runs of kernel/bitmap.c, and its theorems at a bitmap of two bytes.
use os_store.Base.{ℕ, ◌≡◌, refl, true, Option, none, some, [], ◌∷◌, done, arith, ◌>>=◌}
use os_store.Bitmap.{Bitmap, bitmap_init, bitmap_test, bitmap_set, bitmap_scan}
use os_store.Bitmap.Bits.{IsValid}
use os_store.Bitmap.Scan.{Found, bitmap_scan-Found}

-- bits 0, 1, 2, 5 and 8 are set
abbrev two_bytes : Bitmap
two_bytes = record { bits = 0x27 ∷ 0x01 ∷ []; length = 2; offset = 256 }

two_bytes-IsValid : IsValid two_bytes
two_bytes-IsValid = record { size = refl; bytes = omega arith; word = omega arith }

scan_two : bitmap_scan two_bytes 2 ≡ done (some 259, record two_bytes { bits = 0x3f ∷ 0x01 ∷ [] })
unfolding bitmap_scan bitmap_test bitmap_set
scan_two = refl

scan_full : bitmap_scan two_bytes 8 ≡ done (none, two_bytes)
unfolding bitmap_scan bitmap_test bitmap_set
scan_full = refl

init_then_set : (bitmap_set (bitmap_init 2 0) 9 true >>= λ map. bitmap_test map 9) ≡ done true
unfolding bitmap_init bitmap_set bitmap_test
init_then_set = refl

bitmap_scan-Found_example :
    (r : Option ℕ × Bitmap) × (bitmap_scan two_bytes 2 ≡ done r) × Found two_bytes 2 r
bitmap_scan-Found_example = bitmap_scan-Found two_bytes 2 two_bytes-IsValid (omega arith)
