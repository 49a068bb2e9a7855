-- ===== src/Pages/Tests.antt =====
-- Runs of kernel/memory.c, and its theorems at a small memory.
use os_store.Base.{ℕ, ◌+◌, ◌-◌, ◌*◌, ◌^◌, ◌≡◌, refl, List, [], ◌∷◌, get_or, done, arith, ◌>>=◌, inr}
use os_store.Bitmap.{bitmap_scan, bitmap_test, bitmap_set}
use os_store.Bitmap.Bits as Bits
use os_store.Pages.{
  Pages, Zone, onix, memory_init, memory_map_init, largest_zone, get_one_page, put_page,
  alloc_kpage, free_kpage,
}
use os_store.Pages.Count.{unused}
use os_store.Pages.Physical.{IsValid, put_page-get_one_page, put_page-IsValid}
use os_store.Pages.Startup.{memory_map_init-IsValid}
use os_store.Pages.Kernel.{free_kpage-alloc_kpage}

-- six pages, of which 4 is free and 3 shared by two
abbrev six : Pages
six = record {
  total_pages = 6;
  free_pages = 1;
  start_page = 2;
  memory_map = 1 ∷ 1 ∷ 1 ∷ 2 ∷ 0 ∷ 1 ∷ [];
  memory_map_pages = 1;
  kernel_map = record { bits = 0b00000111 ∷ 0 ∷ []; length = 2; offset = 256 };
}

six-IsValid : IsValid six
unfolding unused
six-IsValid = omega arith

abbrev all_taken : Pages
all_taken = record six { memory_map = 1 ∷ 1 ∷ 1 ∷ 2 ∷ 1 ∷ 1 ∷ []; free_pages = 0 }

get_six : get_one_page six ≡ done (0x4000, all_taken)
unfolding get_one_page
get_six = refl

put_page-get_one_page_example : put_page 0x4000 all_taken ≡ done six
put_page-get_one_page_example = put_page-get_one_page six all_taken 0x4000 six-IsValid get_six

put_page-IsValid_example :
    (s' : Pages) × (put_page (3 * 2 ^ 12) six ≡ done s')
    × IsValid s'
    × (get_or s'.memory_map 3 0 + 1 ≡ 2)
    × (s'.free_pages ≡ 1)
put_page-IsValid_example =
    put_page-IsValid six 3 six-IsValid (omega arith) (omega arith) (omega arith)
      (inr (omega arith, omega arith))

six_map : Bits.IsValid six.kernel_map
six_map = omega arith

abbrev two_more : Pages
two_more = record six {
  kernel_map = record { bits = 0b00011111 ∷ 0 ∷ []; length = 2; offset = 256 };
}

alloc_two : alloc_kpage 2 six ≡ done (259 * 2 ^ 12, two_more)
unfolding alloc_kpage bitmap_scan bitmap_test bitmap_set
alloc_two = refl

free_kpage-alloc_kpage_example :
    (s : Pages) × (free_kpage (259 * 2 ^ 12) 2 two_more ≡ done s)
    × Bits.IsValid s.kernel_map
    × ((j : ℕ) → Bits.bit s.kernel_map.bits j ≡ Bits.bit six.kernel_map.bits j)
free_kpage-alloc_kpage_example =
    free_kpage-alloc_kpage 2 (259 * 2 ^ 12) six two_more (omega arith) six_map (omega arith)
      alloc_two

abbrev zones : List Zone
zones =
    record { base = 0; size = 0x9f000; type = 1 }
    ∷ record { base = 0x100000; size = 0x1ef0000; type = 1 }
    ∷ record { base = 0x1ff0000; size = 0x10000; type = 2 }
    ∷ []

largest : largest_zone zones 0 0 ≡ (0x100000, 0x1ef0000)
unfolding largest_zone
largest = refl

memory_map_init-IsValid_example :
    (s : Pages) × ((memory_init (onix zones) >>= memory_map_init) ≡ done s)
    × IsValid s
    × (s.free_pages ≡ unused s.memory_map s.start_page (s.total_pages - s.start_page))
memory_map_init-IsValid_example =
    memory_map_init-IsValid (onix zones) zones 0x1ef0000 refl largest (omega arith)
