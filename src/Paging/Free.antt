-- ===== src/Paging/Free.antt =====
-- free_pde, which goes over the page tables of the kernel.
use mathlib.Core.Path.{subst}
use os_store.Base.{
  ℕ, zero, suc, ◌+◌, ◌-◌, ◌%◌, ◌^◌, ◌<◌, ◌≤◌, ◌≡◌, ◌≢◌, refl, true, not, ◌&&◌, inl, inr, ltb, leb,
  ◌==◌, if◌then◌else◌, set, arith, Bool-cases, Outcome, done, panic, fault, hung, ◌>>◌, assert,
  Ensures, Ensures-bind, Ensures-assert,
}
use os_store.Task.{kernel_user}
use os_store.Pages.{Pages, index_of, address_of, put_page}
use os_store.Paging.{Entry, Space, entries_loop, tables_loop, free_pde}
use os_store.Paging.Counts.{Ensures-load, Ensures-store, index_of-address_of}

-- giving up a page leaves the first page where it is, and the page is not below it
put_page-start :
    (addr : ℕ) (s : Pages)
    → Ensures
        (λ s'. (s'.start_page ≡ s.start_page) × (s.start_page ≤ index_of addr))
        (put_page addr s)
unfolding put_page
put_page-start addr s =
    let P : Pages → Type 0 =
      λ s'. (s'.start_page ≡ s.start_page) × (s.start_page ≤ index_of addr) in
    Ensures-assert P (addr % 2 ^ 12 == 0) _ (λ _.
      Ensures-assert P (leb s.start_page (index_of addr) && ltb (index_of addr) s.total_pages) _
        (λ h. Ensures-load P s.memory_map (index_of addr) _ (λ c _.
          Ensures-assert P (leb 1 c) _ (λ _.
            Ensures-store P s.memory_map (index_of addr) (c - 1) _ (
              let free : ℕ = if c - 1 == 0 then (s.free_pages + 1) % 2 ^ 32 else s.free_pages in
              let s' : Pages = record s {
                memory_map = set s.memory_map (index_of addr) (c - 1);
                free_pages = free;
              } in
              Ensures-assert P (ltb 0 free && ltb free s.total_pages) (done s')
                (λ _. (refl, ground (arith, h))))))))

put_page-same :
    (addr : ℕ) (s : Pages) → Ensures (λ s'. s'.start_page ≡ s.start_page) (put_page addr s)
put_page-same addr s = weaken (put_page addr s) (put_page-start addr s)
  where
    weaken :
        (o : Outcome Pages)
        → Ensures (λ s'. (s'.start_page ≡ s.start_page) × (s.start_page ≤ index_of addr)) o
        → Ensures (λ s'. s'.start_page ≡ s.start_page) o
    weaken (done x) h = h.0
    weaken panic h = tt
    weaken fault h = tt
    weaken hung h = tt

put_page_below :
    (addr : ℕ) (s : Pages) → index_of addr < s.start_page → Ensures (λ _. ⊥) (put_page addr s)
put_page_below addr s l = weaken (put_page addr s) (put_page-start addr s)
  where
    weaken :
        (o : Outcome Pages)
        → Ensures (λ s'. (s'.start_page ≡ s.start_page) × (s.start_page ≤ index_of addr)) o
        → Ensures (λ _. ⊥) o
    weaken (done x) h = omega (arith, h.1, l)
    weaken panic h = tt
    weaken fault h = tt
    weaken hung h = tt

entries_loop-start :
    (left i k : ℕ) (table : ℕ → Entry) (s : Pages)
    → s.start_page ≡ k
    → Ensures (λ s'. s'.start_page ≡ k) (entries_loop left i table s)
unfolding entries_loop
entries_loop-start zero i k table s e = e
entries_loop-start (suc left) i k table s e =
    let P : Pages → Type 0 = λ s'. s'.start_page ≡ k in
    elim (Bool-cases ((table i).present)) [
      | inr h ↦ rw (entries_loop, h) (entries_loop-start left (i + 1) k table s e)
      | inl h ↦
          rw (entries_loop, h)
            (Ensures-load P s.memory_map ((table i).index) _ (λ c _.
              Ensures-bind P P (assert (ltb 0 c) >> put_page (address_of ((table i).index)) s) _
                (Ensures-assert P (ltb 0 c) _ (λ _.
                  subst
                    (λ x.
                      Ensures (λ (s' : Pages). s'.start_page ≡ x)
                        (put_page (address_of ((table i).index)) s))
                    e (put_page-same (address_of ((table i).index)) s)))
                (λ s' f. entries_loop-start left (i + 1) k table s' f)))
    ]

module _ {A : Type 0} where
  -- A directory entry of the kernel, whose page table lies below the first page: the call does not return.
  tables_loop_never :
      (left i : ℕ) (s : Space A) (pages : Pages)
      → (s.dir i).present ≡ true
      → (s.dir i).index < pages.start_page
      → (s.dir i).index < 2 ^ 20
      → Ensures (λ _. ⊥) (tables_loop (suc left) i s pages)
  unfolding tables_loop
  tables_loop_never left i s pages p l b =
      rw (tables_loop, p)
        (Ensures-bind (λ (s' : Pages). s'.start_page ≡ pages.start_page) (λ _. ⊥)
          (entries_loop 1024 0 (s.tables ((s.dir i).index)) pages) _
          (entries_loop-start 1024 0 pages.start_page (s.tables ((s.dir i).index)) pages refl)
          (λ s1 e.
            Ensures-bind (λ _. ⊥) (λ _. ⊥) (put_page (address_of ((s.dir i).index)) s1) _
              (put_page_below (address_of ((s.dir i).index)) s1
                (omega (arith, e, l, index_of-address_of ((s.dir i).index) b)))
              (λ _ f. absurd f)))

  -- `free_pde` never returns where the third page table of the kernel lies below `start_page`, the first page
  -- that is given out: it takes that table for one of the task's, and fails when it gives its page up.
  pub free_pde_never :
      (pde : ℕ) (s s' : Space A)
      → (s.dir 2).present ≡ true
      → (s.dir 2).index < s.pages.start_page
      → s.pages.start_page ≤ 2 ^ 20
      → free_pde pde s ≢ done s'
  unfolding free_pde
  free_pde_never pde s s' p l b e = subst (Ensures (λ _. ⊥)) e (
      Ensures-assert (λ _. ⊥) (not (s.uid == kernel_user)) _
        (λ _.
          Ensures-bind (λ _. ⊥) (λ _. ⊥) (tables_loop 2 2 s s.pages) _
            (tables_loop_never 1 2 s s.pages p l (omega (arith, l, b))) (λ _ f. absurd f)))
