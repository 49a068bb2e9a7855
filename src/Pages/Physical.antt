-- ===== src/Pages/Physical.antt =====
-- get_one_page and put_page of kernel/memory.c.
use mathlib.Core.Path.{subst}
use os_store.Base.{
  ℕ, zero, suc, ◌+◌, ◌-◌, ◌*◌, ◌/◌, ◌%◌, ◌^◌, ◌<◌, ◌≤◌, ◌≡◌, ◌≢◌, refl, sym, ap, true, false, List,
  [], ◌∷◌, ◌==◌, if◌then◌else◌, length, get_or, set, get_or-set_self, length-set,
  get_elem?-eq-get_or, arith, Outcome, done, panic, Bool-cases, inl, inr, ◌⊎◌, ==_iff,
}
use os_store.Pages.{Pages, address_of, get_loop, get_one_page, put_page}
use os_store.Pages.Count.{unused, unused-pos, unused-take, unused-set}

-- The map has an entry for each page, page numbers fit the addresses, and no unused page is missing
-- in `free_pages`. (`mapping_init` takes pages without counting them, so that it may be larger.)
pub record IsValid (s : Pages) : Type 0 where
  pub covered : s.total_pages ≤ length s.memory_map
  pub start : s.start_page ≤ s.total_pages
  pub word : s.total_pages < 2 ^ 20
  pub counted : unused s.memory_map s.start_page (s.total_pages - s.start_page) ≤ s.free_pages
  pub bound : s.free_pages < s.total_pages

-- page `i` in use
abbrev pub taken : ℕ → Pages → Pages
taken i s = record s { memory_map = set s.memory_map i 1; free_pages = s.free_pages - 1 }

-- What `get_one_page` does.
pub data Page (s : Pages) : Outcome (ℕ × Pages) → Type 0 where
  out_of_memory :
      ((j : ℕ) → s.start_page ≤ j → j < s.total_pages → get_or s.memory_map j 0 ≢ 0) → Page s panic
  lowest :
      (i : ℕ)
      → s.start_page ≤ i
      → i < s.total_pages
      → get_or s.memory_map i 0 ≡ 0
      → ((j : ℕ) → s.start_page ≤ j → j < i → get_or s.memory_map j 0 ≢ 0)
      → IsValid (taken i s)
      → Page s (done (i * 2 ^ 12, taken i s))

module _ {s : Pages} (v : IsValid s) where
  taken-IsValid :
      (i : ℕ)
      → s.start_page ≤ i
      → i < s.total_pages
      → get_or s.memory_map i 0 ≡ 0
      → IsValid (taken i s)
  taken-IsValid i lo hi e =
      let fits : i < length s.memory_map = omega (arith, v.covered) in
      let less =
        unused-take s.memory_map s.start_page (s.total_pages - s.start_page) i lo (omega arith) fits
          e in
      let size = length-set s.memory_map i 1 in
      record {
        covered = omega (arith, v.covered, size);
        start = v.start;
        word = v.word;
        counted = omega (arith, v.counted, less);
        bound = omega (arith, v.bound);
      }

  free_pages-pos :
      (i : ℕ)
      → s.start_page ≤ i
      → i < s.total_pages
      → get_or s.memory_map i 0 ≡ 0
      → 0 < s.free_pages
  free_pages-pos i lo hi e = omega (
    arith,
    v.counted,
    unused-pos s.memory_map s.start_page (s.total_pages - s.start_page) i lo (omega arith) e,
  )

  get_loop-used :
      (n i : ℕ)
      → i < s.total_pages
      → (get_or s.memory_map i 0 == 0) ≡ false
      → get_loop (suc n) i s ≡ get_loop n (i + 1) s
  unfolding get_loop
  get_loop-used n i h q = ground (arith, get_elem?-eq-get_or s.memory_map i 0, v.covered)

  get_loop-unused :
      (n i : ℕ)
      → s.start_page ≤ i
      → i < s.total_pages
      → (get_or s.memory_map i 0 == 0) ≡ true
      → get_loop (suc n) i s ≡ done (i * 2 ^ 12, taken i s)
  unfolding get_loop
  get_loop-unused n i lo h q =
      let e : get_or s.memory_map i 0 ≡ 0 = (==_iff (get_or s.memory_map i 0) 0).0 q in
      let f : (s.free_pages + 2 ^ 32 - 1) % 2 ^ 32 ≡ s.free_pages - 1 =
        omega (arith, free_pages-pos i lo h e, v.bound, v.word) in
      let a : address_of i ≡ i * 2 ^ 12 = omega (arith, v.word) in
      ground (arith, get_elem?-eq-get_or s.memory_map i 0, v.covered, a, f)

  get_loop-Page :
      (n i : ℕ)
      → s.start_page ≤ i
      → i + n ≡ s.total_pages
      → ((j : ℕ) → s.start_page ≤ j → j < i → get_or s.memory_map j 0 ≢ 0)
      → Page s (get_loop n i s)
  unfolding get_loop
  get_loop-Page zero i lo e before = out_of_memory (λ j l h. before j l (omega arith))
  get_loop-Page (suc n) i lo e before = elim (Bool-cases (get_or s.memory_map i 0 == 0)) [
    | inl q ↦
        let z : get_or s.memory_map i 0 ≡ 0 = (==_iff (get_or s.memory_map i 0) 0).0 q in
        subst (Page s) (sym (get_loop-unused n i lo (omega arith) q))
          (lowest i lo (omega arith) z before (taken-IsValid i lo (omega arith) z))
    | inr q ↦ subst (Page s) (sym (get_loop-used n i (omega arith) q)) (
        get_loop-Page n (i + 1) (omega arith) (omega arith) (λ j l h. elim (Bool-cases (j == i)) [
          | inl r ↦ λ z. ground (arith, ap (λ k. get_or s.memory_map k 0) ((==_iff j i).0 r))
          | inr r ↦ before j l (ground arith)
        ]))
  ]

-- `get_one_page` of valid pages takes the lowest page that is not in use: its entry becomes 1, nothing
-- else in the map changes, and the pages stay valid. It panics exactly when every page is in use.
pub get_one_page-Page : (s : Pages) → IsValid s → Page s (get_one_page s)
unfolding get_one_page
get_one_page-Page s v =
    get_loop-Page v (s.total_pages - s.start_page) s.start_page (omega arith)
      (omega (arith, v.start)) (λ j l h. absurd (omega arith))

set-set_back : (map : List ℕ) (i : ℕ) → get_or map i 0 ≡ 0 → set (set map i 1) i 0 ≡ map
set-set_back [] i e = refl
set-set_back (x ∷ map) zero e = ap (λ y. y ∷ map) (sym e)
set-set_back (x ∷ map) (suc i) e = ap (λ xs. x ∷ xs) (set-set_back map i e)

put_back :
    {s s' : Pages} {addr : ℕ} → IsValid s → Page s (done (addr, s')) → put_page addr s' ≡ done s
unfolding put_page
put_back {s} v (lowest i lo hi e before v') =
    let a : i * 2 ^ 12 / 2 ^ 12 ≡ i = omega arith in
    let b : i * 2 ^ 12 % 2 ^ 12 ≡ 0 = omega arith in
    let f : (s.free_pages - 1 + 1) % 2 ^ 32 ≡ s.free_pages =
      omega (arith, free_pages-pos v i lo hi e, v.bound, v.word) in
    let g : get_or (set s.memory_map i 1) i 0 ≡ 1 =
      get_or-set_self s.memory_map i 1 0 (omega (arith, v.covered)) in
    let m : set (set s.memory_map i 1) i 0 ≡ s.memory_map = set-set_back s.memory_map i e in
    ground (
      arith,
      a,
      b,
      f,
      g,
      m,
      get_elem?-eq-get_or (set s.memory_map i 1) i 0,
      v'.covered,
      v.bound,
      free_pages-pos v i lo hi e,
    )

-- A page just taken can be put back, and then the pages are as they were.
pub put_page-get_one_page :
    (s s' : Pages) (addr : ℕ)
    → IsValid s
    → get_one_page s ≡ done (addr, s')
    → put_page addr s' ≡ done s
put_page-get_one_page s s' addr v e = put_back v (subst (Page s) e (get_one_page-Page s v))

-- A reference to a page in use can be given up in valid pages, where it is the last one and the free pages with
-- this one are fewer than all pages, or where it is not the last one and some page is free: `put_page` takes
-- one from the entry, counts the page as free when none is left, and keeps the pages valid.
pub put_page-IsValid :
    (s : Pages) (i : ℕ)
    → IsValid s
    → s.start_page ≤ i
    → i < s.total_pages
    → 0 < get_or s.memory_map i 0
    → ((get_or s.memory_map i 0 ≡ 1) × (s.free_pages + 1 < s.total_pages))
      ⊎ ((1 < get_or s.memory_map i 0) × (0 < s.free_pages))
    → (s' : Pages) × (put_page (i * 2 ^ 12) s ≡ done s')
      × IsValid s'
      × (get_or s'.memory_map i 0 + 1 ≡ get_or s.memory_map i 0)
      × (s'.free_pages ≡ (if get_or s.memory_map i 0 == 1 then s.free_pages + 1 else s.free_pages))
unfolding put_page
put_page-IsValid s i v lo hi used one =
    let c = get_or s.memory_map i 0 in
    let free = if c == 1 then s.free_pages + 1 else s.free_pages in
    let s' = record s { memory_map = set s.memory_map i (c - 1); free_pages = free } in
    let a : i * 2 ^ 12 / 2 ^ 12 ≡ i = omega arith in
    let b : i * 2 ^ 12 % 2 ^ 12 ≡ 0 = omega arith in
    (
      s',
      ground (arith, a, b, get_elem?-eq-get_or s.memory_map i 0, v.covered, v.bound, v.word, one),
      record {
        covered = omega (arith, v.covered, length-set s.memory_map i (c - 1));
        start = v.start;
        word = v.word;
        counted = ground (
          arith,
          v.counted,
          unused-set s.memory_map s.start_page (s.total_pages - s.start_page) i (c - 1),
        );
        bound = ground (arith, v.bound, one);
      },
      ground (arith, get_or-set_self s.memory_map i (c - 1) 0, v.covered),
      refl,
    )
