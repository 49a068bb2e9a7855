-- ===== src/Pages.antt =====
-- kernel/memory.c: which physical pages are in use, and the pages of the kernel's own addresses. The
-- page tables stand in Paging.
pub mod Count
pub mod Physical
pub mod Kernel
pub mod Startup
mod Tests
use os_store.Base.{
  ℕ, zero, suc, ◌+◌, ◌-◌, ◌*◌, ◌/◌, ◌%◌, ◌^◌, Bool, true, false, ◌&&◌, Option, none, some, List, [],
  ◌∷◌, ltb, leb, ◌==◌, if◌then◌else◌, set, replicate, Outcome, done, panic, ◌>>=◌, ◌>>◌, assert,
  load, store,
}
use os_store.Bitmap.{Bitmap, bitmap_make, bitmap_init, bitmap_scan, bitmap_test, bitmap_set}
use os_store.Stdlib.{div_round_up}

abbrev pub page_size : ℕ
page_size = 0x1000

abbrev pub memory_base : ℕ
memory_base = 0x100000

abbrev pub kernel_memory_size : ℕ
kernel_memory_size = 0x1000000

-- `IDX` and `PAGE`
abbrev pub index_of : ℕ → ℕ
index_of addr = addr / 2 ^ 12

abbrev pub address_of : ℕ → ℕ
address_of idx = idx * 2 ^ 12 % 2 ^ 32

-- the static variables, and `kernel_map`
pub record Pages : Type 0 where
  pub total_pages : ℕ
  pub free_pages : ℕ
  pub start_page : ℕ
  pub memory_map : List ℕ
  pub memory_map_pages : ℕ
  pub kernel_map : Bitmap

-- `ards_t` and `multi_mmap_entry_t`
pub record Zone : Type 0 where
  pub base : ℕ
  pub size : ℕ
  pub type : ℕ

-- a tag of the multiboot information, with the entries that it holds if it is the memory map
pub record Tag : Type 0 where
  pub type : ℕ
  pub entries : List Zone

-- `magic`, and what stands at `addr`
pub data BootInfo : Type 0 where
  onix : List Zone → BootInfo
  multiboot2 : List Tag → BootInfo
  unknown_magic : BootInfo

-- the walk over the tags, up to the memory map or the end tag, whose size leaves no entry
unfoldable pub mmap_entries : List Tag → List Zone
mmap_entries [] = []
mmap_entries (tag ∷ tags) =
    let rest = mmap_entries tags in
    if tag.type == 0 then [] else if tag.type == 6 then tag.entries else rest

-- both loops over zones: `memory_base` and `memory_size`
unfoldable pub largest_zone : List Zone → ℕ → ℕ → ℕ × ℕ
largest_zone [] base size = (base, size)
largest_zone (z ∷ zs) base size = elim (z.type == 1 && ltb size z.size) [
  | true ↦ largest_zone zs (z.base % 2 ^ 32) (z.size % 2 ^ 32)
  | false ↦ largest_zone zs base size
]

abbrev pub zones_of : BootInfo → Outcome (List Zone)
zones_of (onix zones) = done zones
zones_of (multiboot2 tags) = done (mmap_entries tags)
zones_of unknown_magic = panic

unfoldable pub memory_init : BootInfo → Outcome Pages
unfolding largest_zone mmap_entries bitmap_make
memory_init info = do
  zones ← zones_of info
  let (base, size) = largest_zone zones 0 0
  assert (base == memory_base)
  assert (size % 2 ^ 12 == 0)
  if ltb size kernel_memory_size
      then panic
      else done (record {
        total_pages = (index_of size + index_of memory_base) % 2 ^ 32;
        free_pages = index_of size;
        start_page = 0;
        memory_map = [];
        memory_map_pages = 0;
        kernel_map = bitmap_make [] 0 0;
      })

-- `for (i = 0; i < start_page; i++) memory_map[i] = 1`: `n` rounds from `i` on
unfoldable pub reserve_loop : ℕ → ℕ → List ℕ → Outcome (List ℕ)
reserve_loop zero i map = done map
reserve_loop (suc n) i map = store map i 1 >>= reserve_loop n (i + 1)

-- `kernel_map` before the pages of the map are taken
unfoldable pub kernel_bits : Bitmap
unfolding bitmap_init
kernel_bits =
    bitmap_init ((index_of kernel_memory_size - index_of memory_base) / 8) (index_of memory_base)

-- `memory_map_init` for a map of `pages` pages
unfoldable pub make_map : ℕ → Pages → Outcome Pages
make_map pages s = do
  let start = index_of memory_base + pages
  map ← reserve_loop start 0 (replicate (pages * page_size) 0)
  (_, kernel_map) ← bitmap_scan kernel_bits pages
  done (record s {
    free_pages = (s.free_pages + 2 ^ 32 - pages) % 2 ^ 32;
    start_page = start;
    memory_map = map;
    memory_map_pages = pages;
    kernel_map = kernel_map;
  })

unfoldable pub memory_map_init : Pages → Outcome Pages
memory_map_init s = make_map (div_round_up s.total_pages page_size) s

-- The loop of `get_one_page`, `n` rounds from index `i` on. The assertion `free_pages >= 0` on a `u32`
-- always holds.
unfoldable pub get_loop : ℕ → ℕ → Pages → Outcome (ℕ × Pages)
get_loop zero i s = panic
get_loop (suc n) i s = do
  count ← load s.memory_map i
  elim (count == 0) [
    | true ↦ done (
      address_of i,
      record s {
        memory_map = set s.memory_map i 1;
        free_pages = (s.free_pages + 2 ^ 32 - 1) % 2 ^ 32;
      },
    )
    | false ↦ get_loop n (i + 1) s
  ]

unfoldable pub get_one_page : Pages → Outcome (ℕ × Pages)
unfolding get_loop
get_one_page s = get_loop (s.total_pages - s.start_page) s.start_page s

unfoldable pub put_page : ℕ → Pages → Outcome Pages
put_page addr s = do
  assert (addr % 2 ^ 12 == 0)
  let idx = index_of addr
  assert (leb s.start_page idx && ltb idx s.total_pages)
  count ← load s.memory_map idx
  assert (leb 1 count)
  map ← store s.memory_map idx (count - 1)
  let free = if count - 1 == 0 then (s.free_pages + 1) % 2 ^ 32 else s.free_pages
  assert (ltb 0 free && ltb free s.total_pages)
  done (record s { memory_map = map; free_pages = free })

unfoldable pub scan_page : Bitmap → ℕ → Outcome (ℕ × Bitmap)
scan_page map count = do
  assert (ltb 0 count)
  (index, map') ← bitmap_scan map count
  elim index [ none ↦ panic | some i ↦ done (address_of i, map') ]

-- the loop of `reset_page`, `n` rounds from page `index` on
unfoldable pub reset_loop : ℕ → ℕ → Bitmap → Outcome Bitmap
reset_loop zero index map = done map
reset_loop (suc n) index map = do
  used ← bitmap_test map index
  assert used
  map' ← bitmap_set map index false
  reset_loop n (index + 1) map'

unfoldable pub reset_page : Bitmap → ℕ → ℕ → Outcome Bitmap
unfolding reset_loop
reset_page map addr count = do
  assert (addr % 2 ^ 12 == 0)
  assert (ltb 0 count)
  reset_loop count (index_of addr) map

unfoldable pub alloc_kpage : ℕ → Pages → Outcome (ℕ × Pages)
unfolding scan_page
alloc_kpage count s = do
  assert (ltb 0 count)
  (vaddr, map) ← scan_page s.kernel_map count
  done (vaddr, record s { kernel_map = map })

unfoldable pub free_kpage : ℕ → ℕ → Pages → Outcome Pages
unfolding reset_page
free_kpage vaddr count s = do
  assert (vaddr % 2 ^ 12 == 0)
  assert (ltb 0 count)
  map ← reset_page s.kernel_map vaddr count
  done (record s { kernel_map = map })
