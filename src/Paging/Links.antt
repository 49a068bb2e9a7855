-- ===== src/Paging/Links.antt =====
-- link_page keeps shared pages apart.
use os_store.Base.{
  ℕ, ◌%◌, ◌^◌, ◌<◌, ◌≤◌, ◌≡◌, refl, ap, sym, ◌∙◌, Bool, true, false, not, ◌||◌, ◌⊎◌, inl, inr, none,
  some, ◌==◌, get_or, arith, Bool-cases, ==_iff, ==-refl, Ensures, Ensures-any, Ensures-bind,
  Ensures-assert,
}
use os_store.Bitmap.{bitmap_test, bitmap_set}
use os_store.Pages.{Pages, index_of, get_one_page}
use os_store.Paging.{
  flush_tlb, Entry, Space, put, didx, tidx, entry_init, zero_entry, set_entry, get_pte, link_new,
  link_page,
}
use os_store.Paging.Refs.{Slot, same, same_eq, Refs-unmapped}
use os_store.Paging.Share.{page_of, Shared, Shared-fewer, Shared-map, Shared-write}
use os_store.Paging.Counts.{get_or_elem, get_or-set, index_of-address_of, Taken, get_one_page-Taken}

module _ {A : Type 0} where
  -- the entry of a slot
  abbrev pub entries : Space A → Slot → Entry
  entries s x = s.tables (x.0) (x.1)

  abbrev pub count : Space A → ℕ → ℕ
  count s i = get_or s.pages.memory_map i 0

  -- Page numbers have 20 bits, no page has fewer references than slots that map it, and no slot whose
  -- page another slot maps can be written through.
  abbrev pub Inv : Space A → Type 0
  Inv s =
      (s.pages.total_pages ≤ 2 ^ 20)
      × ((x : Slot) → (entries s x).index < 2 ^ 20)
      × Shared (entries s) (count s)

  pub set_entry_self : (t i : ℕ) (e : Entry) (s : Space A) → entries (set_entry t i e s) (t, i) ≡ e
  set_entry_self t i e s = rw (==-refl t, ==-refl i)

  pub set_entry_other :
      (t i : ℕ) (e : Entry) (s : Space A) (y : Slot)
      → same (t, i) y ≡ false
      → entries (set_entry t i e s) y ≡ entries s y
  set_entry_other t i e s (p, q) h = elim (Bool-cases (p == t)) [
    | inr k ↦ rw k
    | inl k ↦
        let off : (q == i) ≡ false = ground (arith, h, k) in
        rw (k, off) (ap (λ z. s.tables z q) (sym ((==_iff p t).0 k)))
  ]

  -- a page is taken, and only some entries disappear
  pub take-Inv :
      (s s' : Space A) (addr : ℕ)
      → Inv s
      → Taken s.pages (addr, s'.pages)
      → ((x : Slot) → (page_of (entries s' x) ≡ none) ⊎ (entries s' x ≡ entries s x))
      → ((x : Slot) → (entries s' x).index < 2 ^ 20)
      → Inv s'
  take-Inv s s' addr (w, b, sh) (j, _, _, e, m, t) f b' = (
    rw t w,
    b',
    Shared-fewer (entries s) (entries s') (count s) (count s') f
        (λ i. rw m (
          ground
            (arith, get_or-set s.pages.memory_map j 0 1 i e, get_or_elem s.pages.memory_map j 0 e)))
        sh,
  )

  -- a page is taken for a slot, whatever it mapped before
  pub map-Inv :
      (s s' : Space A) (t i addr : ℕ)
      → Inv s
      → Taken s.pages (addr, s'.pages)
      → ((y : Slot) → entries s' y ≡ entries (set_entry t i (entry_init (index_of addr)) s) y)
      → Inv s'
  map-Inv s s' t i addr (w, b, sh) (j, a, l, e, m, k) h =
      let other : (y : Slot) → same (t, i) y ≡ false → entries s' y ≡ entries s y =
        λ y n. h y ∙ set_entry_other t i (entry_init (index_of addr)) s y n in
      let here : entries s' (t, i) ≡ entry_init (index_of addr) =
        h (t, i) ∙ set_entry_self t i (entry_init (index_of addr)) s in
      (
        rw k w,
        λ y. elim (Bool-cases (same (t, i) y)) [
          | inl q ↦ omega (
            arith,
            l,
            ap (λ (f : Entry). f.index) (ap (entries s') (sym (same_eq (t, i) y q)) ∙ here),
            ap index_of a ∙ index_of-address_of j l,
          )
          | inr q ↦ omega (arith, b y, ap (λ (f : Entry). f.index) (other y q))
        ],
        Shared-map (entries s) (entries s') (count s) (count s') (t, i) j
            (ap page_of here ∙ ap some (ap index_of a ∙ index_of-address_of j l))
            (Refs-unmapped (λ x. page_of (entries s x)) (count s) j (sh.0)
              (get_or_elem s.pages.memory_map j 0 e))
            other
            (λ q. rw m (
              ground (
                arith,
                get_or-set s.pages.memory_map j 0 1 q e,
                get_or_elem s.pages.memory_map j 0 e,
              )))
            (rw m (ground (arith, get_or-set s.pages.memory_map j 0 1 j e))) sh,
      )

  -- the state with a new, empty page table
  abbrev new_table : (vaddr page : ℕ) → Pages → Space A → Space A
  new_table vaddr page pages s = record s {
    pages = pages;
    dir = put (didx vaddr) (entry_init (index_of page)) s.dir;
    tables = put (index_of page) (λ _. zero_entry) s.tables;
  }

  pub get_pte-Inv :
      (vaddr : ℕ) (create : Bool) (s : Space A)
      → Inv s
      → Ensures (λ (r : ℕ × Space A). Inv r.1) (get_pte vaddr create s)
  unfolding get_pte
  get_pte-Inv vaddr create s v =
      Ensures-assert (λ (r : ℕ × Space A). Inv r.1) (create || (s.dir (didx vaddr)).present) _
        (λ _. elim (Bool-cases ((s.dir (didx vaddr)).present)) [
          | inl h ↦ rw h v
          | inr h ↦ rw h (
              Ensures-bind (Taken s.pages) (λ (r : ℕ × Space A). Inv r.1) (get_one_page s.pages) _
                (get_one_page-Taken s.pages v.0)
                (λ r k.
                  take-Inv s (new_table vaddr (r.0) (r.1) s) (r.0) v k
                    (λ x. elim (Bool-cases (x.0 == index_of (r.0))) [
                      | inl q ↦ inl (rw q)
                      | inr q ↦ inr (rw q)
                    ])
                    (λ x. elim (Bool-cases (x.0 == index_of (r.0))) [
                      | inl q ↦ rw q (omega arith)
                      | inr q ↦ rw q (v.1 x)
                    ])))
        ])

  link_new-Inv : (vaddr t : ℕ) (s : Space A) → Inv s → Ensures Inv (link_new vaddr t s)
  unfolding link_new
  link_new-Inv vaddr t s v =
      Ensures-bind (λ _. Unit {0}) Inv (bitmap_set s.vmap (index_of vaddr) true) _ (Ensures-any _)
        (λ map _.
          Ensures-bind (Taken s.pages) Inv (get_one_page s.pages) _ (get_one_page-Taken s.pages v.0)
            (λ r k.
              map-Inv s
                (set_entry t (tidx vaddr) (entry_init (index_of (r.0)))
                  (record s { vmap = map; pages = r.1; cached = flush_tlb vaddr s.cached }))
                t (tidx vaddr) (r.0) v k (λ y. refl)))

  pub link_page-Inv : (vaddr : ℕ) (s : Space A) → Inv s → Ensures Inv (link_page vaddr s)
  unfolding link_page
  link_page-Inv vaddr s v = Ensures-assert Inv (vaddr % 2 ^ 12 == 0) _ (λ _.
      Ensures-bind (λ (r : ℕ × Space A). Inv r.1) Inv (get_pte vaddr true s) _
        (get_pte-Inv vaddr true s v)
        (λ r w.
          Ensures-bind (λ _. Unit {0}) Inv (bitmap_test (r.1).vmap (index_of vaddr)) _
            (Ensures-any _)
            (λ used _. elim (Bool-cases (((r.1).tables (r.0) (tidx vaddr)).present)) [
              | inl h ↦ rw h (Ensures-assert Inv used _ (λ _. w))
              | inr h ↦
                  rw h (Ensures-assert Inv (not used) _ (λ _. link_new-Inv vaddr (r.0) (r.1) w))
            ])))

  -- A slot whose page has one reference may be written.
  pub write-Inv :
      (s : Space A) (t i : ℕ)
      → Inv s
      → (s.tables t i).present ≡ true
      → count s ((s.tables t i).index) ≡ 1
      → Inv (set_entry t i (record (s.tables t i) { write = true }) s)
  write-Inv s t i (w, b, sh) p c =
      let entry : Entry = s.tables t i in
      let open_entry : Entry = record entry { write = true } in
      let s' : Space A = set_entry t i open_entry s in
      let here : entries s' (t, i) ≡ open_entry = set_entry_self t i open_entry s in
      let other : (y : Slot) → same (t, i) y ≡ false → entries s' y ≡ entries s y =
        set_entry_other t i open_entry s in
      (
        w,
        λ y. elim (Bool-cases (same (t, i) y)) [
          | inl q ↦ omega (
            arith,
            b (t, i),
            ap (λ (f : Entry). f.index) (ap (entries s') (sym (same_eq (t, i) y q)) ∙ here),
          )
          | inr q ↦ omega (arith, b y, ap (λ (f : Entry). f.index) (other y q))
        ],
        Shared-write (entries s) (entries s') (count s) (t, i) entry.index (rw p)
            (ap page_of here ∙ rw p) other c sh,
      )
