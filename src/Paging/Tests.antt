-- ===== src/Paging/Tests.antt =====
-- A state in which two slots map a page, and the theorems about page faults at it.
use os_store.Base.{
  ℕ, ◌*◌, ◌≡◌, ◌≢◌, ◌≤◌, ◌<◌, ◌^◌, refl, ap, true, false, none, [], ◌∷◌, ◌==◌, if◌then◌else◌,
  get_or, arith, Bool-cases, inl, inr, ==_iff, done, Returns, Ensures,
}
use os_store.Pages.{Pages, get_one_page}
use os_store.Paging.{
  Entry, Space, put, zero_entry, set_entry, page_fault, link_page, unlink_page, sys_brk,
}
use os_store.Paging.Refs.{Slot, Refs, Refs-share}
use os_store.Paging.Share.{page_of}
use os_store.Paging.Links.{entries, count, Inv, set_entry_other}
use os_store.Paging.Write.{slot, Copy, page_fault-Inv, page_fault-Copy}
use os_store.Paging.{free_pde}
use os_store.Paging.Free.{free_pde_never}
use os_store.Paging.Brk.{sys_brk_never}

-- page 4 has two references, and page 5 is free
abbrev physical : Pages
physical = record {
  total_pages = 6;
  free_pages = 1;
  start_page = 1;
  memory_map = 1 ∷ 1 ∷ 1 ∷ 1 ∷ 2 ∷ 0 ∷ [];
  memory_map_pages = 1;
  kernel_map = record { bits = []; length = 0; offset = 0 };
}

abbrev table_at : ℕ → Entry
table_at index = record { present = true; write = true; user = true; index = index }

abbrev read_only : Entry
read_only = record { present = true; write = false; user = true; index = 4 }

-- no slot maps a page
abbrev empty : Space ℕ
empty = record {
  pages = physical;
  dir = put 4 (table_at 3) (put 0 (table_at 2) (λ _. zero_entry));
  tables = λ _ _. zero_entry;
  frames = λ i. i * 100;
  vmap = record { bits = 32 ∷ []; length = 1; offset = 4096 };
  brk = 0x1010000;
  uid = 1000;
  cached = none;
}

-- this task's page, and the other task's
abbrev mine : Space ℕ
mine = set_entry 3 5 read_only empty

abbrev both : Space ℕ
both = set_entry 7 5 read_only mine

both-cases : (P : Entry → Type 0) → P read_only → P zero_entry → (x : Slot) → P (entries both x)
both-cases P r z (p, t) = elim (Bool-cases (p == 7)) [
  | inl a ↦ elim (Bool-cases (t == 5)) [ inl b ↦ rw (a, b) r | inr b ↦ rw (a, b) z ]
  | inr a ↦ elim (Bool-cases (p == 3)) [
    | inl c ↦ elim (Bool-cases (t == 5)) [ inl b ↦ rw (a, c, b) r | inr b ↦ rw (a, c, b) z ]
    | inr c ↦ rw (a, c) z
  ]
]

abbrev once : ℕ → ℕ
once i = if i == 4 then 1 else 0

empty-Refs : Refs (λ x. page_of (entries empty x)) (λ _. 0)
empty-Refs i [] d a = omega arith
empty-Refs i (x ∷ xs) d (h, _) = ground (arith, h)

once-below : (i : ℕ) → once i ≤ get_or physical.memory_map i 0
once-below i = elim (Bool-cases (i == 4)) [
  | inl k ↦ rw (k, (==_iff i 4).0 k) (omega arith)
  | inr k ↦ rw k (omega arith)
]

both-Inv : Inv both
both-Inv = (
  omega arith,
  both-cases (λ e. e.index < 2 ^ 20) (omega arith) (omega arith),
  (
    Refs-share (λ x. page_of (entries mine x)) (λ x. page_of (entries both x)) once (count both)
        (7, 5) 4 refl (λ y n. ap page_of (set_entry_other 7 5 read_only mine y n)) once-below
        (omega arith)
        (Refs-share (λ x. page_of (entries empty x)) (λ x. page_of (entries mine x)) (λ _. 0) once
          (3, 5) 4 refl (λ y n. ap page_of (set_entry_other 3 5 read_only empty y n))
          (λ i. omega arith) (omega arith) empty-Refs),
    λ x y i k a b. both-cases (λ e. e.write ≡ false) refl refl x,
  ),
)

abbrev taken : Pages
taken = record physical { memory_map = 1 ∷ 1 ∷ 1 ∷ 1 ∷ 2 ∷ 1 ∷ []; free_pages = 0 }

get_one_page_run : get_one_page physical ≡ done (0x5000, taken)
unfolding get_one_page
get_one_page_run = refl

page_fault-Copy_example :
    Returns (Copy (slot 0x1005000 both) 4 2 5 both) (page_fault 0xe 0x1005000 true true both)
page_fault-Copy_example =
    page_fault-Copy 0x1005000 2 0x5000 taken both both-Inv (omega arith) (omega arith) refl refl
      refl refl refl refl (omega arith) get_one_page_run

page_fault-Inv_example :
    Ensures Inv (page_fault 0xe 0x1005000 true true both)
    × Ensures Inv (link_page 0x1005000 both)
    × Ensures Inv (unlink_page 0x1005000 both)
page_fault-Inv_example = page_fault-Inv 0xe 0x1005000 true true both both-Inv refl refl

sys_brk_never_example : sys_brk 9 0x1005000 both ≢ done (true, both)
sys_brk_never_example = sys_brk_never 9 0x1005000 both (true, both) (omega arith)

-- the page table of the kernel at 0x4000
abbrev with_kernel : Space ℕ
with_kernel = record both {
  dir = put 2 (table_at 4) both.dir;
  pages = record physical { start_page = 5 };
}

free_pde_never_example : free_pde 0x8000 with_kernel ≢ done with_kernel
free_pde_never_example =
    free_pde_never 0x8000 with_kernel with_kernel refl (omega arith) (omega arith)
