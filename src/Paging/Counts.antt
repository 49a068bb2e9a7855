-- ===== src/Paging/Counts.antt =====
-- What taking and giving up a physical page does to the references of all pages.
use os_store.Base.{
  ℕ, zero, suc, ◌+◌, ◌-◌, ◌%◌, ◌^◌, ◌<◌, ◌≤◌, ◌≡◌, refl, ap, ◌∙◌, ◌&&◌, inl, inr, none, some, List,
  [], ◌∷◌, ltb, leb, ◌==◌, if◌then◌else◌, get_elem?, get_or, set, arith, Bool-cases, Option-cases,
  ==_iff, Outcome, done, ◌>>=◌, load, store, Ensures, Ensures-assert,
}
use os_store.Pages.{Pages, index_of, address_of, get_loop, get_one_page, put_page}

pub Ensures-load {ℓ} :
    {B : Type ℓ} (Q : B → Type 0) (xs : List ℕ) (i : ℕ) (f : ℕ → Outcome B)
    → ((x : ℕ) → get_elem? xs i ≡ some x → Ensures Q (f x))
    → Ensures Q (load xs i >>= f)
Ensures-load Q xs i f g = elim (Option-cases (get_elem? xs i)) [
  | inl h ↦ rw (load, h) tt
  | inr (x, h) ↦ rw (load, h) (g x h)
]

pub Ensures-store {ℓ} :
    {B : Type ℓ} (Q : B → Type 0) (xs : List ℕ) (i v : ℕ) (f : List ℕ → Outcome B)
    → Ensures Q (f (set xs i v))
    → Ensures Q (store xs i v >>= f)
Ensures-store Q xs i v f g = elim (Option-cases (get_elem? xs i)) [
  | inl h ↦ rw (store, h) tt
  | inr (x, h) ↦ rw (store, h) g
]

pub get_or_elem : (map : List ℕ) (j c : ℕ) → get_elem? map j ≡ some c → get_or map j 0 ≡ c
get_or_elem [] j c h = ground (arith, h)
get_or_elem (x ∷ map) zero c h = ap (λ o. elim o [ none ↦ 0 | some k ↦ k ]) h
get_or_elem (x ∷ map) (suc j) c h = get_or_elem map j c h

pub get_or-set :
    (map : List ℕ) (j c v i : ℕ)
    → get_elem? map j ≡ some c
    → get_or (set map j v) i 0 ≡ (if i == j then v else get_or map i 0)
get_or-set [] j c v i h = ground (arith, h)
get_or-set (x ∷ map) zero c v zero h = refl
get_or-set (x ∷ map) zero c v (suc i) h = ground arith
get_or-set (x ∷ map) (suc j) c v zero h = ground arith
get_or-set (x ∷ map) (suc j) c v (suc i) h = ground (arith, get_or-set map j c v i h)

pub index_of-address_of : (j : ℕ) → j < 2 ^ 20 → index_of (address_of j) ≡ j
index_of-address_of j l = omega (arith, l)

-- Page `j` had no reference, and gets one.
abbrev pub Taken : Pages → ℕ × Pages → Type 0
Taken s (addr, s') =
    (j : ℕ) × (addr ≡ address_of j)
    × (j < 2 ^ 20)
    × (get_elem? s.memory_map j ≡ some 0)
    × (s'.memory_map ≡ set s.memory_map j 1)
    × (s'.total_pages ≡ s.total_pages)

get_loop-Taken :
    (n i : ℕ) (s : Pages) → (0 < n → i + n ≤ 2 ^ 20) → Ensures (Taken s) (get_loop n i s)
unfolding get_loop
get_loop-Taken zero i s l = tt
get_loop-Taken (suc n) i s l = Ensures-load (Taken s) s.memory_map i _ (λ c e.
    elim (Bool-cases (c == 0)) [
      | inl z ↦
          rw z (i, refl, omega (arith, l (omega arith)), e ∙ ap some ((==_iff c 0).0 z), refl, refl)
      | inr z ↦ rw z (get_loop-Taken n (i + 1) s (λ _. omega (arith, l (omega arith))))
    ])

pub get_one_page-Taken : (s : Pages) → s.total_pages ≤ 2 ^ 20 → Ensures (Taken s) (get_one_page s)
unfolding get_one_page
get_one_page-Taken s h =
    get_loop-Taken (s.total_pages - s.start_page) s.start_page s (λ p. omega (arith, h, p))

-- A page with a reference loses it.
abbrev pub Lost : (addr : ℕ) → Pages → Pages → Type 0
Lost addr s s' =
    (c : ℕ) × (get_elem? s.memory_map (index_of addr) ≡ some c)
    × (1 ≤ c)
    × (s'.memory_map ≡ set s.memory_map (index_of addr) (c - 1))
    × (s'.total_pages ≡ s.total_pages)

pub put_page-Lost : (addr : ℕ) (s : Pages) → Ensures (Lost addr s) (put_page addr s)
unfolding put_page
put_page-Lost addr s = Ensures-assert (Lost addr s) (addr % 2 ^ 12 == 0) _ (λ _.
    Ensures-assert (Lost addr s)
      (leb s.start_page (index_of addr) && ltb (index_of addr) s.total_pages) _
      (λ _. Ensures-load (Lost addr s) s.memory_map (index_of addr) _ (λ c e.
        Ensures-assert (Lost addr s) (leb 1 c) _ (λ h.
          Ensures-store (Lost addr s) s.memory_map (index_of addr) (c - 1) _ (
            let free : ℕ = if c - 1 == 0 then (s.free_pages + 1) % 2 ^ 32 else s.free_pages in
            let s' : Pages = record s {
              memory_map = set s.memory_map (index_of addr) (c - 1);
              free_pages = free;
            } in
            Ensures-assert (Lost addr s) (ltb 0 free && ltb free s.total_pages) (done s')
              (λ _. (c, e, ground (arith, h), refl, refl)))))))
