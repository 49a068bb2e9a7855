-- ===== src/Paging/Write.antt =====
-- page_fault as a whole.
use mathlib.Core.Path.{subst}
use os_store.Base.{
  ℕ, ◌-◌, ◌<◌, ◌≤◌, ◌≡◌, ◌≢◌, refl, ap, sym, ◌∙◌, Bool, true, false, ◌&&◌, ◌||◌, inl, inr, none,
  some, ltb, leb, ◌==◌, get_elem?, arith, Bool-cases, ==_iff, ==-refl, Outcome, done, panic, fault,
  hung, load, Ensures, Ensures-assert,
}
use os_store.Pages.{Pages, index_of, address_of, kernel_memory_size, get_one_page}
use os_store.Paging.{
  translated, Entry, Space, user_stack_top, user_stack_bottom, didx, tidx, entry_init, set_entry,
  get_pte, link_page, unlink_page, copy_page, unshare, write_fault, page_fault,
}
use os_store.Paging.Refs.{Slot, same}
use os_store.Paging.Share.{page_of, some_inj}
use os_store.Paging.Counts.{
  Ensures-load, get_or_elem, get_or-set, index_of-address_of, Taken, get_one_page-Taken,
}
use os_store.Base.{Returns}
use os_store.Paging.Refs.{Refs-alone}
use os_store.Paging.Fault.{copied, unshare-copied, copied-Inv, get_elem?-set}
use os_store.Paging.Links.{
  entries, count, Inv, set_entry_self, set_entry_other, link_page-Inv, write-Inv,
}
use os_store.Paging.Unlink.{unlink_page-Inv}

module _ {A : Type 0} where
  -- the slot of an address in the running task's page tables
  abbrev pub slot : ℕ → Space A → Slot
  slot vaddr s = ((s.dir (didx vaddr)).index, tidx vaddr)

  -- the slot that pages are copied through
  abbrev pub window : Space A → Slot
  window s = ((s.dir 0).index, 0)

  unshare-Inv :
      (vaddr t c : ℕ) (s : Space A)
      → Inv s
      → (s.dir 0).present ≡ true
      → (s.tables t (tidx vaddr)).present ≡ true
      → same (window s) (t, tidx vaddr) ≡ false
      → get_elem? s.pages.memory_map ((s.tables t (tidx vaddr)).index) ≡ some c
      → 1 ≤ c
      → Ensures Inv (unshare vaddr t (s.tables t (tidx vaddr)) s)
  unfolding unshare copy_page
  unshare-Inv vaddr t c s v d p apart e pos =
      go (get_one_page s.pages) refl (get_one_page-Taken s.pages v.0)
    where
      go :
          (o : Outcome (ℕ × Pages))
          → get_one_page s.pages ≡ o
          → Ensures (Taken s.pages) o
          → Ensures Inv (unshare vaddr t (s.tables t (tidx vaddr)) s)
      go panic g _ = rw (unshare, copy_page, g) tt
      go fault g _ = rw (unshare, copy_page, g) tt
      go hung g _ = rw (unshare, copy_page, g) tt
      go (done (addr, pages)) g k =
          let (j, _, _, f, m, _) = k in
          let ne : j ≢ (s.tables t (tidx vaddr)).index = λ q.
            omega
              (arith, pos, some_inj c 0 (sym e ∙ ap (get_elem? s.pages.memory_map) (sym q) ∙ f)) in
          let e' : get_elem? pages.memory_map ((s.tables t (tidx vaddr)).index) ≡ some c =
            ap (λ x. get_elem? x ((s.tables t (tidx vaddr)).index)) m
            ∙ get_elem?-set s.pages.memory_map j ((s.tables t (tidx vaddr)).index) 1 ne
            ∙ e in
          rw (unshare-copied vaddr t c addr (s.tables t (tidx vaddr)) pages s g d e')
            (copied-Inv t (tidx vaddr) c addr pages s v p apart e pos k)

  write_fault-Inv :
      (vaddr : ℕ) (s : Space A)
      → Inv s
      → (s.dir 0).present ≡ true
      → same (window s) (slot vaddr s) ≡ false
      → Ensures Inv (write_fault vaddr s)
  unfolding write_fault get_pte
  write_fault-Inv vaddr s v d apart = elim (Bool-cases ((s.dir (didx vaddr)).present)) [
    | inr h ↦ rw (write_fault, get_pte, h) tt
    | inl h ↦
        let t : ℕ = (s.dir (didx vaddr)).index in
        let entry : Entry = s.tables t (tidx vaddr) in
        elim (Bool-cases (entry.present)) [
          | inr p ↦ rw (write_fault, get_pte, h, p) tt
          | inl p ↦
              rw (write_fault, get_pte, h, p)
                (Ensures-load Inv s.pages.memory_map entry.index _ (λ c e.
                  Ensures-assert Inv (ltb 0 c) _ (λ pos. elim (Bool-cases (c == 1)) [
                    | inl o ↦ rw o (
                        write-Inv s t (tidx vaddr) v p
                          (get_or_elem s.pages.memory_map entry.index c e ∙ (==_iff c 1).0 o))
                    | inr o ↦ rw o (unshare-Inv vaddr t c s v d p apart e (ground (arith, pos)))
                  ])))
        ]
  ]

  -- Pages that slots share stay apart: a call of page_fault, link_page or unlink_page that returns keeps page
  -- numbers within 20 bits, no page has fewer references than slots that map it, and none that two slots map
  -- can be written through either. The page table of address 0, which pages are copied through, is present,
  -- and its first entry is not the entry of the address.
  pub page_fault-Inv :
      (vector vaddr : ℕ) (present write : Bool) (s : Space A)
      → Inv s
      → (s.dir 0).present ≡ true
      → same (window s) (slot vaddr s) ≡ false
      → Ensures Inv (page_fault vector vaddr present write s)
        × Ensures Inv (link_page vaddr s)
        × Ensures Inv (unlink_page vaddr s)
  unfolding page_fault
  page_fault-Inv vector vaddr true write s v d apart = (
    Ensures-assert Inv (vector == 0xe) _ (λ _.
        Ensures-assert Inv (leb kernel_memory_size vaddr && ltb vaddr user_stack_top) _
          (λ _. Ensures-assert Inv write _ (λ _. write_fault-Inv vaddr s v d apart))),
    link_page-Inv vaddr s v,
    unlink_page-Inv vaddr s v,
  )
  page_fault-Inv vector vaddr false write s v d apart = (
    Ensures-assert Inv (vector == 0xe) _ (λ _.
        Ensures-assert Inv (leb kernel_memory_size vaddr && ltb vaddr user_stack_top) _ (λ _.
          elim (Bool-cases (ltb vaddr s.brk || leb user_stack_bottom vaddr)) [
            | inl h ↦ rw h (link_page-Inv (address_of (index_of vaddr)) s v)
            | inr h ↦ rw h tt
          ])),
    link_page-Inv vaddr s v,
    unlink_page-Inv vaddr s v,
  )

  -- What a write to a shared page leaves, where page `j` was free and the slot `x` mapped `old`.
  abbrev pub Copy : (x : Slot) → (old c j : ℕ) → Space A → Space A → Type 0
  Copy x old c j s s' =
      (entries s' x ≡ entry_init j)
      × (s'.frames j ≡ s.frames old)
      × (count s' old ≡ c - 1)
      × ((y : Slot) → same x y ≡ false → page_of (entries s' y) ≢ some j)
      × ((y : Slot) → same x y ≡ false → same (window s) y ≡ false → entries s' y ≡ entries s y)
      × ((q : ℕ) → (q == j) ≡ false → s'.frames q ≡ s.frames q)
      × (s'.cached ≡ some j)

  copied-Copy :
      (t i c addr : ℕ) (pages : Pages) (s : Space A)
      → Inv s
      → (s.tables t i).present ≡ true
      → same (window s) (t, i) ≡ false
      → s.cached ≡ none
      → get_elem? s.pages.memory_map ((s.tables t i).index) ≡ some c
      → 1 ≤ c
      → Taken s.pages (addr, pages)
      → Copy
          (t, i)
          ((s.tables t i).index)
          c
          (index_of addr)
          s
          (copied t i ((s.tables t i).index) c addr pages s)
  copied-Copy t i c addr pages s v p apart cold e pos k =
      let (j, a, l, f, m, w) = k in
      let old : ℕ = (s.tables t i).index in
      let s' : Space A = copied t i old c addr pages s in
      let page : index_of addr ≡ j = ap index_of a ∙ index_of-address_of j l in
      let vs' : Inv s' = copied-Inv t i c addr pages s v p apart e pos k in
      let ne : j ≢ old = λ q.
        omega (arith, pos, some_inj c 0 (sym e ∙ ap (get_elem? s.pages.memory_map) (sym q) ∙ f)) in
      let apart_j : (j == old) ≡ false = elim (Bool-cases (j == old)) [
        | inl q ↦ absurd (ne ((==_iff j old).0 q))
        | inr q ↦ q
      ] in
      let e' : get_elem? pages.memory_map old ≡ some c =
        ap (λ x. get_elem? x old) m ∙ get_elem?-set s.pages.memory_map j old 1 ne ∙ e in
      let one : count s' j ≡ 1 =
        get_or-set pages.memory_map old c (c - 1) j e'
        ∙ rw (apart_j, m) (get_or-set s.pages.memory_map j 0 1 j f ∙ rw (==-refl j)) in
      let sw : Space A =
        set_entry ((s.dir 0).index) 0 (record (entry_init (index_of addr)) { present = false }) s in
      let mine : entries s' (t, i) ≡ entry_init (index_of addr) =
        set_entry_self t i (entry_init (index_of addr))
          (record sw { frames = s'.frames; pages = s'.pages; cached = s'.cached }) in
      (
        mine,
        rw (cold, ==-refl (index_of addr)),
        get_or-set pages.memory_map old c (c - 1) old e' ∙ rw (==-refl old),
        λ y n.
            Refs-alone (λ x. page_of (entries s' x)) (count s') (index_of addr) (t, i) y vs'.2.0
              (ap (count s') page ∙ one) (ap page_of mine) n,
        λ y n q.
            set_entry_other t i (entry_init (index_of addr))
              (record sw { frames = s'.frames; pages = s'.pages; cached = s'.cached }) y n
            ∙ set_entry_other ((s.dir 0).index) 0
                (record (entry_init (index_of addr)) { present = false }) s y q,
        λ q n. rw (cold, n),
        ap (λ o. some (translated o (index_of addr))) cold,
      )

  -- A write to a page that the slot maps and that has other references, where a page is free and the processor
  -- keeps no translation of address 0: `page_fault` returns, the slot maps the free page and may be written
  -- through, no other slot maps that page, it holds what the old page holds, and the old page has one reference
  -- less. All other slots and all other pages are as before, but for the slot that pages are copied through;
  -- and the processor now takes address 0 for the new page, so a second copy before a flush is not covered. The
  -- state is one that `Inv` holds in (pages that slots share are apart, as page_fault keeps them), the
  -- address is one of the task's, its page table and that of address 0 are present, and its entry is not the
  -- first entry of the latter.
  pub page_fault-Copy :
      (vaddr c addr : ℕ) (pages : Pages) (s : Space A)
      → Inv s
      → kernel_memory_size ≤ vaddr
      → vaddr < user_stack_top
      → (s.dir 0).present ≡ true
      → (s.dir (didx vaddr)).present ≡ true
      → same (window s) (slot vaddr s) ≡ false
      → (entries s (slot vaddr s)).present ≡ true
      → s.cached ≡ none
      → get_elem? s.pages.memory_map ((entries s (slot vaddr s)).index) ≡ some c
      → 2 ≤ c
      → get_one_page s.pages ≡ done (addr, pages)
      → Returns
          (Copy (slot vaddr s) ((entries s (slot vaddr s)).index) c (index_of addr) s)
          (page_fault 0xe vaddr true true s)
  unfolding page_fault write_fault get_pte
  page_fault-Copy vaddr c addr pages s v lo hi d h apart p cold e two g =
      let t : ℕ = (s.dir (didx vaddr)).index in
      let old : ℕ = (s.tables t (tidx vaddr)).index in
      let k : Taken s.pages (addr, pages) =
        subst (Ensures (Taken s.pages)) g (get_one_page-Taken s.pages v.0) in
      let (j, _, _, f, m, _) = k in
      let ne : j ≢ old = λ q.
        omega (arith, two, some_inj c 0 (sym e ∙ ap (get_elem? s.pages.memory_map) (sym q) ∙ f)) in
      let e' : get_elem? pages.memory_map old ≡ some c =
        ap (λ x. get_elem? x old) m ∙ get_elem?-set s.pages.memory_map j old 1 ne ∙ e in
      let bound : (leb kernel_memory_size vaddr && ltb vaddr user_stack_top) ≡ true =
        ground (arith, lo, hi) in
      let pos : ltb 0 c ≡ true = ground (arith, two) in
      let many : (c == 1) ≡ false = ground (arith, two) in
      rw
        (
          page_fault,
          bound,
          write_fault,
          get_pte,
          h,
          p,
          load,
          e,
          pos,
          many,
          unshare-copied vaddr t c addr (s.tables t (tidx vaddr)) pages s g d e',
        )
        (copied-Copy t (tidx vaddr) c addr pages s v p apart cold e (omega (arith, two)) k)
