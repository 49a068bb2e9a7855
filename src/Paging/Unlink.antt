-- ===== src/Paging/Unlink.antt =====
-- unlink_page keeps shared pages apart.
use os_store.Base.{
  ℕ, ◌-◌, ◌%◌, ◌^◌, ◌≡◌, refl, ap, sym, ◌∙◌, true, false, not, inl, inr, some, ◌==◌, get_elem?, set,
  arith, Bool-cases, Ensures, Ensures-any, Ensures-bind, Ensures-assert,
}
use os_store.Bitmap.{bitmap_test, bitmap_set}
use os_store.Pages.{index_of, address_of, put_page}
use os_store.Paging.{flush_tlb, Entry, Space, tidx, set_entry, get_pte, unlink_old, unlink_page}
use os_store.Paging.Refs.{Slot, same, same_eq}
use os_store.Paging.Share.{page_of, Shared-unmap}
use os_store.Paging.Counts.{get_or_elem, get_or-set, index_of-address_of, Lost, put_page-Lost}
use os_store.Paging.Links.{entries, count, Inv, set_entry_self, set_entry_other, get_pte-Inv}

module _ {A : Type 0} where
  -- a slot gives up its page, which loses a reference
  pub unmap-Inv :
      (s s' : Space A) (t i : ℕ)
      → Inv s
      → (s.tables t i).present ≡ true
      → Lost (address_of ((s.tables t i).index)) s.pages s'.pages
      → ((y : Slot)
          → entries s' y ≡ entries (set_entry t i (record (s.tables t i) { present = false }) s) y)
      → Inv s'
  unmap-Inv s s' t i (w, b, sh) p (c, e, pos, m, k) h =
      let entry : Entry = s.tables t i in
      let gone : Entry = record entry { present = false } in
      let other : (y : Slot) → same (t, i) y ≡ false → entries s' y ≡ entries s y =
        λ y n. h y ∙ set_entry_other t i gone s y n in
      let here : entries s' (t, i) ≡ gone = h (t, i) ∙ set_entry_self t i gone s in
      let ij : index_of (address_of entry.index) ≡ entry.index =
        index_of-address_of entry.index (b (t, i)) in
      let e' : get_elem? s.pages.memory_map entry.index ≡ some c =
        ap (get_elem? s.pages.memory_map) (sym ij) ∙ e in
      let m' : s'.pages.memory_map ≡ set s.pages.memory_map entry.index (c - 1) =
        m ∙ ap (λ n. set s.pages.memory_map n (c - 1)) ij in
      (
        rw k w,
        λ y. elim (Bool-cases (same (t, i) y)) [
          | inl q ↦ omega (
            arith,
            b (t, i),
            ap (λ (f : Entry). f.index) (ap (entries s') (sym (same_eq (t, i) y q)) ∙ here),
          )
          | inr q ↦ omega (arith, b y, ap (λ (f : Entry). f.index) (other y q))
        ],
        Shared-unmap (entries s) (entries s') (count s) (count s') (t, i) entry.index (rw p)
            (ap page_of here) other
            (λ q n.
              rw m' (ground (arith, get_or-set s.pages.memory_map entry.index c (c - 1) q e', n)))
            (rw m' (
              ground (
                arith,
                get_or-set s.pages.memory_map entry.index c (c - 1) entry.index e',
                get_or_elem s.pages.memory_map entry.index c e',
              )))
            sh,
      )

  unlink_old-Inv :
      (vaddr t : ℕ) (s : Space A)
      → Inv s
      → (s.tables t (tidx vaddr)).present ≡ true
      → Ensures Inv (unlink_old vaddr t s)
  unfolding unlink_old
  unlink_old-Inv vaddr t s v h =
      let entry : Entry = s.tables t (tidx vaddr) in
      Ensures-bind (λ _. Unit {0}) Inv (bitmap_set s.vmap (index_of vaddr) false) _ (Ensures-any _)
        (λ map _.
          Ensures-bind (Lost (address_of entry.index) s.pages) Inv
            (put_page (address_of entry.index) s.pages) _
            (put_page-Lost (address_of entry.index) s.pages)
            (λ pages k.
              unmap-Inv s
                (set_entry t (tidx vaddr) (record entry { present = false })
                  (record s { vmap = map; pages = pages; cached = flush_tlb vaddr s.cached }))
                t (tidx vaddr) v h k (λ y. refl)))

  pub unlink_page-Inv : (vaddr : ℕ) (s : Space A) → Inv s → Ensures Inv (unlink_page vaddr s)
  unfolding unlink_page
  unlink_page-Inv vaddr s v = Ensures-assert Inv (vaddr % 2 ^ 12 == 0) _ (λ _.
      Ensures-bind (λ (r : ℕ × Space A). Inv r.1) Inv (get_pte vaddr true s) _
        (get_pte-Inv vaddr true s v)
        (λ r w.
          Ensures-bind (λ _. Unit {0}) Inv (bitmap_test (r.1).vmap (index_of vaddr)) _
            (Ensures-any _)
            (λ used _. elim (Bool-cases (((r.1).tables (r.0) (tidx vaddr)).present)) [
              | inl h ↦ rw h (Ensures-assert Inv used _ (λ _. unlink_old-Inv vaddr (r.0) (r.1) w h))
              | inr h ↦ rw h (Ensures-assert Inv (not used) _ (λ _. w))
            ])))
