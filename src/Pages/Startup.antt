-- ===== src/Pages/Startup.antt =====
-- memory_init and memory_map_init of kernel/memory.c.
use os_store.Base.{
  ℕ, zero, suc, ◌+◌, ◌-◌, ◌*◌, ◌/◌, ◌%◌, ◌^◌, ◌<◌, ◌≤◌, ◌≡◌, refl, ◌∙◌, true, false, List, [],
  Option, ◌==◌, ltb, length, get_or, set, replicate, length-set, length-replicate, get_or-set_ne,
  get_elem?-eq-get_or, arith, done, ◌>>=◌, ==_iff,
}
use os_store.Stdlib.{div_round_up}
use os_store.Bitmap.{Bitmap, bitmap_make, bitmap_init, bitmap_scan}
use os_store.Bitmap.Bits as Bits
use os_store.Bitmap.Scan.{bitmap_scan-Found}
use os_store.Pages.{
  Pages, Zone, BootInfo, zones_of, largest_zone, memory_init, memory_map_init, make_map,
  kernel_bits, reserve_loop,
}
use os_store.Pages.Count.{unused}
use os_store.Pages.Physical.{IsValid}

record Reserved (n i : ℕ) (map m : List ℕ) : Type 0 where
  pub size : length m ≡ length map
  pub behind : (j : ℕ) → i + n ≤ j → get_or m j 0 ≡ get_or map j 0

reserve_loop-Reserved :
    (n i : ℕ) (map : List ℕ)
    → i + n ≤ length map
    → (m : List ℕ) × (reserve_loop n i map ≡ done m) × Reserved n i map m
unfolding reserve_loop
reserve_loop-Reserved zero i map h = (map, refl, record { size = refl; behind = λ j _. refl })
reserve_loop-Reserved (suc n) i map h =
    let size = length-set map i 1 in
    let (m, run, r) = reserve_loop-Reserved n (i + 1) (set map i 1) (omega (arith, size)) in
    (
      m,
      ground (arith, get_elem?-eq-get_or map i 0) ∙ run,
      record {
        size = r.size ∙ size;
        behind = λ j lo. r.behind j (omega arith) ∙ get_or-set_ne map i j 1 0 (λ e. omega arith);
      },
    )

get_or-replicate : (n j : ℕ) → get_or (replicate {A = ℕ} n 0) j 0 ≡ 0
get_or-replicate zero j = refl
get_or-replicate (suc n) zero = refl
get_or-replicate (suc n) (suc j) = get_or-replicate n j

unused_all : (map : List ℕ) (i n : ℕ) → ((j : ℕ) → i ≤ j → get_or map j 0 ≡ 0) → unused map i n ≡ n
unfolding unused
unused_all map i zero h = refl
unused_all map i (suc n) h =
    rw (h i (omega arith)) (omega (arith, unused_all map (i + 1) n (λ j lo. h j (omega arith))))

-- The machine has whole pages, for 16 MB at least, and no more than the addresses reach.
pub record Suits (size : ℕ) : Type 0 where
  pub whole : size % 2 ^ 12 ≡ 0
  pub least : 0x1000000 ≤ size
  pub most : size < 2 ^ 32 - 2 ^ 20

bitmap_init-IsValid :
    (len start : ℕ) → start + len * 8 < 2 ^ 31 → Bits.IsValid (bitmap_init len start)
unfolding bitmap_init
bitmap_init-IsValid len start h = record {
  size = length-replicate len 0;
  bytes = Bits.zero_Bytes len;
  word = h;
}

kernel_bits-IsValid : Bits.IsValid kernel_bits
unfolding kernel_bits
kernel_bits-IsValid = bitmap_init-IsValid 480 256 (omega arith)

-- the pages of the map
abbrev pub map_pages : ℕ → ℕ
map_pages size = (size / 2 ^ 12 + 256 + 4095) / 4096

-- the pages before the map is made
abbrev pub counted : ℕ → Pages
counted size = record {
  total_pages = size / 2 ^ 12 + 256;
  free_pages = size / 2 ^ 12;
  start_page = 0;
  memory_map = [];
  memory_map_pages = 0;
  kernel_map = bitmap_make [] 0 0;
}

memory_init-counted :
    (info : BootInfo) (zones : List Zone) (size : ℕ)
    → zones_of info ≡ done zones
    → largest_zone zones 0 0 ≡ (0x100000, size)
    → Suits size
    → memory_init info ≡ done (counted size)
unfolding memory_init
memory_init-counted info zones size e l u =
    let b : ((size % 2 ^ 12 == 0) ≡ true) = (==_iff (size % 2 ^ 12) 0).1 u.whole in
    let c : ltb size 0x1000000 ≡ false = ground (arith, u.least) in
    let d : (size / 2 ^ 12 + 256) % 2 ^ 32 ≡ size / 2 ^ 12 + 256 = omega (arith, u.most) in
    rw (e, l, b, c, d)

-- the pages after it
abbrev started : ℕ → List ℕ → Bitmap → Pages
started size map kernel_map = record {
  total_pages = size / 2 ^ 12 + 256;
  free_pages = size / 2 ^ 12 - map_pages size;
  start_page = 256 + map_pages size;
  memory_map = map;
  memory_map_pages = map_pages size;
  kernel_map = kernel_map;
}

module _ (size : ℕ) (u : Suits size) where
  pages-eq : div_round_up (size / 2 ^ 12 + 256) 0x1000 ≡ map_pages size
  unfolding div_round_up
  pages-eq = omega (arith, u.most)

  memory_map_init-started :
      (map : List ℕ) (r : Option ℕ × Bitmap)
      → reserve_loop (256 + map_pages size) 0 (replicate (map_pages size * 0x1000) 0) ≡ done map
      → bitmap_scan kernel_bits (map_pages size) ≡ done r
      → memory_map_init (counted size) ≡ done (started size map r.1)
  unfolding memory_map_init make_map
  memory_map_init-started map r e f =
      let g : (size / 2 ^ 12 + 2 ^ 32 - map_pages size) % 2 ^ 32 ≡ size / 2 ^ 12 - map_pages size =
        omega (arith, u.most, u.least) in
      rw (pages-eq, e, f, g)

  started-IsValid :
      (map : List ℕ) (kernel_map : Bitmap)
      → Reserved (256 + map_pages size) 0 (replicate (map_pages size * 0x1000) 0) map
      → IsValid (started size map kernel_map)
        × (size / 2 ^ 12 - map_pages size
            ≡ unused map (256 + map_pages size) (size / 2 ^ 12 + 256 - (256 + map_pages size)))
  started-IsValid map kernel_map r =
      let n = size / 2 ^ 12 + 256 - (256 + map_pages size) in
      let all : unused map (256 + map_pages size) n ≡ n =
        unused_all map (256 + map_pages size) n
          (λ j lo. r.behind j (omega arith) ∙ get_or-replicate (map_pages size * 0x1000) j) in
      (
        record {
          covered = omega (arith, r.size, length-replicate {A = ℕ} (map_pages size * 0x1000) 0);
          start = omega (arith, u.least, u.most);
          word = omega (arith, u.most);
          counted = omega (arith, all);
          bound = omega (arith, u.least);
        },
        omega (arith, all),
      )

-- What the boot loader says of the memory, with a largest usable zone that suits: the start-up returns,
-- the pages are valid, and `free_pages` is exactly the number of pages that are not in use.
pub memory_map_init-IsValid :
    (info : BootInfo) (zones : List Zone) (size : ℕ)
    → zones_of info ≡ done zones
    → largest_zone zones 0 0 ≡ (0x100000, size)
    → Suits size
    → (s : Pages) × ((memory_init info >>= memory_map_init) ≡ done s)
      × IsValid s
      × (s.free_pages ≡ unused s.memory_map s.start_page (s.total_pages - s.start_page))
memory_map_init-IsValid info zones size e l u =
    let k = map_pages size in
    let (map, reserved, r) =
      reserve_loop-Reserved (256 + k) 0 (replicate (k * 0x1000) 0)
        (omega (arith, u.least, length-replicate {A = ℕ} (k * 0x1000) 0)) in
    let (found, scanned, _) =
      bitmap_scan-Found kernel_bits k kernel_bits-IsValid (omega (arith, u.least)) in
    (
      started size map found.1,
      rw (memory_init-counted info zones size e l u)
          (memory_map_init-started size u map found reserved scanned),
      (started-IsValid size u map found.1 r).0,
      (started-IsValid size u map found.1 r).1,
    )
