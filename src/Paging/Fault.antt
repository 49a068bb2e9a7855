-- ===== src/Paging/Fault.antt =====
-- page_fault: a write to a page that several slots map gets a copy of it, and pages stay apart.
use os_store.Base.{
  ℕ, zero, suc, ◌-◌, ◌^◌, ◌<◌, ◌≤◌, ◌≡◌, ◌≢◌, refl, ap, sym, ◌∙◌, true, false, inl, inr, some, List,
  [], ◌∷◌, get_elem?, set, arith, Bool-cases, done, load, store,
}
use os_store.Pages.{Pages, index_of, address_of, get_one_page}
use os_store.Paging.{
  translated, Entry, Space, put, tidx, entry_init, set_entry, get_pte, copy_page, unshare,
}
use os_store.Paging.Refs.{Slot, same, same_eq}
use os_store.Paging.Share.{page_of, Shared-fewer, some_inj}
use os_store.Paging.Counts.{index_of-address_of, Taken}
use os_store.Paging.Links.{entries, count, Inv, set_entry_self, set_entry_other, map-Inv}
use os_store.Paging.Unlink.{unmap-Inv}

set-set : (map : List ℕ) (i j v w : ℕ) → i ≢ j → set (set map i v) j w ≡ set (set map j w) i v
set-set [] i j v w h = refl
set-set (x ∷ map) zero zero v w h = absurd (h refl)
set-set (x ∷ map) zero (suc j) v w h = refl
set-set (x ∷ map) (suc i) zero v w h = refl
set-set (x ∷ map) (suc i) (suc j) v w h = ap (λ m. x ∷ m) (set-set map i j v w (λ e. h (ap suc e)))

pub get_elem?-set : (map : List ℕ) (i j v : ℕ) → i ≢ j → get_elem? (set map i v) j ≡ get_elem? map j
get_elem?-set [] i j v h = refl
get_elem?-set (x ∷ map) zero zero v h = absurd (h refl)
get_elem?-set (x ∷ map) zero (suc j) v h = refl
get_elem?-set (x ∷ map) (suc i) zero v h = refl
get_elem?-set (x ∷ map) (suc i) (suc j) v h = get_elem?-set map i j v (λ e. h (ap suc e))

module _ {A : Type 0} where
  -- the state after the slot `(t, i)` has got page `addr` for a copy of `old`, whose references were `c`
  abbrev pub copied : (t i old c addr : ℕ) → Pages → Space A → Space A
  copied t i old c addr pages s =
      set_entry t i (entry_init (index_of addr))
        (record (set_entry ((s.dir 0).index) 0
          (record (entry_init (index_of addr)) { present = false })
          (record s {
            frames = put (translated s.cached (index_of addr)) (s.frames old) s.frames;
            cached = some (translated s.cached (index_of addr));
          })) { pages = record pages { memory_map = set pages.memory_map old (c - 1) } })

  pub unshare-copied :
      (vaddr t c addr : ℕ) (entry : Entry) (pages : Pages) (s : Space A)
      → get_one_page s.pages ≡ done (addr, pages)
      → (s.dir 0).present ≡ true
      → get_elem? pages.memory_map entry.index ≡ some c
      → unshare vaddr t entry s ≡ done (copied t (tidx vaddr) entry.index c addr pages s)
  unfolding unshare copy_page get_pte
  unshare-copied vaddr t c addr entry pages s g d e =
      rw (unshare, copy_page, g, get_pte, d, load, store, e)

  -- an entry that maps nothing may be written anywhere
  hide-Inv :
      (s : Space A) (t i n : ℕ)
      → Inv s
      → n < 2 ^ 20
      → Inv (set_entry t i (record (entry_init n) { present = false }) s)
  hide-Inv s t i n (w, b, sh) l =
      let gone : Entry = record (entry_init n) { present = false } in
      let s' : Space A = set_entry t i gone s in
      let here : (y : Slot) → same (t, i) y ≡ true → entries s' y ≡ gone =
        λ y q. ap (entries s') (sym (same_eq (t, i) y q)) ∙ set_entry_self t i gone s in
      (
        w,
        λ y. elim (Bool-cases (same (t, i) y)) [
          | inl q ↦ omega (arith, l, ap (λ (f : Entry). f.index) (here y q))
          | inr q ↦ omega (arith, b y, ap (λ (f : Entry). f.index) (set_entry_other t i gone s y q))
        ],
        Shared-fewer (entries s) (entries s') (count s) (count s')
            (λ y. elim (Bool-cases (same (t, i) y)) [
              | inl q ↦ inl (ap page_of (here y q))
              | inr q ↦ inr (set_entry_other t i gone s y q)
            ])
            (λ k. omega arith) sh,
      )

  pub copied-Inv :
      (t i c addr : ℕ) (pages : Pages) (s : Space A)
      → Inv s
      → (s.tables t i).present ≡ true
      → same ((s.dir 0).index, 0) (t, i) ≡ false
      → get_elem? s.pages.memory_map ((s.tables t i).index) ≡ some c
      → 1 ≤ c
      → Taken s.pages (addr, pages)
      → Inv (copied t i ((s.tables t i).index) c addr pages s)
  copied-Inv t i c addr pages s v p apart e pos (j, a, l, f, m, k) =
      let old : ℕ = (s.tables t i).index in
      let ne : old ≢ j =
        λ q. omega (arith, pos, some_inj c 0 (sym e ∙ ap (get_elem? s.pages.memory_map) q ∙ f)) in
      let d : ℕ = (s.dir 0).index in
      let page : index_of addr ≡ j = ap index_of a ∙ index_of-address_of j l in
      let hidden : Entry = record (entry_init (index_of addr)) { present = false } in
      let sw : Space A = set_entry d 0 hidden s in
      let vw : Inv sw = hide-Inv s d 0 (index_of addr) v (omega (arith, page, l)) in
      let keep : entries sw (t, i) ≡ entries s (t, i) = set_entry_other d 0 hidden s (t, i) apart in
      let gone : Entry = record (sw.tables t i) { present = false } in
      let u : Space A = record (set_entry t i gone sw) {
        pages = record s.pages { memory_map = set s.pages.memory_map old (c - 1) };
      } in
      let at : index_of (address_of ((sw.tables t i).index)) ≡ old =
        ap (λ (x : Entry). index_of (address_of x.index)) keep
        ∙ index_of-address_of old (v.1 (t, i)) in
      let vu : Inv u =
        unmap-Inv sw u t i vw (ap (λ (x : Entry). x.present) keep ∙ p)
          (
            c,
            ap (get_elem? s.pages.memory_map) at ∙ e,
            pos,
            ap (λ n. set s.pages.memory_map n (c - 1)) (sym at),
            refl,
          )
          (λ y. refl) in
      let s' : Space A = copied t i old c addr pages s in
      map-Inv u s' t i addr vu
        (
          j,
          a,
          l,
          get_elem?-set s.pages.memory_map old j (c - 1) ne ∙ f,
          ap (λ x. set x old (c - 1)) m
              ∙ set-set s.pages.memory_map j old 1 (c - 1) (λ q. ne (sym q)),
          k,
        )
        (λ y. elim (Bool-cases (same (t, i) y)) [
          | inl q ↦
              ap (entries s') (sym (same_eq (t, i) y q))
              ∙ set_entry_self t i (entry_init (index_of addr))
                  (record sw { frames = s'.frames; pages = s'.pages; cached = s'.cached })
              ∙ sym (set_entry_self t i (entry_init (index_of addr)) u)
              ∙ ap (entries (set_entry t i (entry_init (index_of addr)) u)) (same_eq (t, i) y q)
          | inr q ↦
              set_entry_other t i (entry_init (index_of addr))
                (record sw { frames = s'.frames; pages = s'.pages; cached = s'.cached }) y q
              ∙ sym (set_entry_other t i gone sw y q)
              ∙ sym (set_entry_other t i (entry_init (index_of addr)) u y q)
        ])
