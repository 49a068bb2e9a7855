-- ===== src/Cstring/Search.antt =====
-- `strchr`, `strrchr` and `memchr` of lib/string.c: the first or the last match.
use os_store.Base.{
  ℕ, zero, suc, ◌+◌, ◌≡◌, ◌≢◌, ◌≤◌, ◌<◌, Option, none, some, List, [], ◌∷◌, length, ◌==◌,
  if◌then◌else◌, done, arith, ==_iff, ==_of_ne, ◌∙◌,
}
use native.Mathlib.Decide.{ℕ_discrete}
use os_store.Base.Memory.{Memory, IsStr, extend}
use os_store.Cstring.{strchr_loop, strchr, strrchr_loop, strrchr}

abbrev Misses : Memory → ℕ → ℕ → ℕ → Type 0
Misses mem ch from to = (a : ℕ) → from ≤ a → a < to → extend (mem a) ≢ ch

-- the first match among the addresses from `from` up to `to`, or that there is none
abbrev pub First : Memory → ℕ → ℕ → ℕ → Option ℕ → Type 0
First mem ch from to none = (a : ℕ) → from ≤ a → a < to → extend (mem a) ≢ ch
First mem ch from to (some q) =
    (from ≤ q)
    × (q < to)
    × (extend (mem q) ≡ ch)
    × ((a : ℕ) → from ≤ a → a < q → extend (mem a) ≢ ch)

-- the last match
abbrev pub Last : Memory → ℕ → ℕ → ℕ → Option ℕ → Type 0
Last mem ch from to none = (a : ℕ) → from ≤ a → a < to → extend (mem a) ≢ ch
Last mem ch from to (some q) =
    (from ≤ q) × (q < to) × (extend (mem q) ≡ ch) × ((a : ℕ) → q < a → a < to → extend (mem a) ≢ ch)

module _ (mem : Memory) (ch p : ℕ) (miss : extend (mem p) ≢ ch) where
  Misses-before :
      (q : ℕ)
      → ((a : ℕ) → p + 1 ≤ a → a < q → extend (mem a) ≢ ch)
      → (a : ℕ) → p ≤ a
      → a < q
      → extend (mem a) ≢ ch
  Misses-before q h a lo hi = elim (ℕ_discrete a p) [
    | yes e ↦ rw e miss
    | no ne ↦ h a (omega arith) hi
  ]

  First-next : (to : ℕ) (r : Option ℕ) → First mem ch (p + 1) to r → First mem ch p to r
  First-next to none h = Misses-before to h
  First-next to (some q) h = (omega (arith, h.0), h.1, h.2, Misses-before q h.3)

strchr_loop-First :
    (mem : Memory) (ch k p : ℕ) (cs : List ℕ)
    → IsStr mem p cs
    → length cs < k
    → (r : Option ℕ) × (strchr_loop mem ch k p ≡ done r) × First mem ch p (p + length cs + 1) r
unfolding strchr_loop
strchr_loop-First mem ch zero p cs h lt = absurd (omega arith)
strchr_loop-First mem ch (suc k) p [] h lt = elim (ℕ_discrete (extend (mem p)) ch) [
  | yes hit ↦
      (some p, ground arith, (omega arith, omega arith, hit, λ a lo hi. absurd (omega arith)))
  | no miss ↦ (none, ground arith, λ a lo hi. let e : a ≡ p = omega arith in rw e miss)
]
strchr_loop-First mem ch (suc k) p (c ∷ cs) h lt = elim (ℕ_discrete (extend (mem p)) ch) [
  | yes hit ↦
      (some p, ground arith, (omega arith, omega arith, hit, λ a lo hi. absurd (omega arith)))
  | no miss ↦
      let (r, run, f) = strchr_loop-First mem ch k (p + 1) cs h.2 (omega arith) in
      let e : p + 1 + length cs + 1 ≡ p + suc (length cs) + 1 = omega arith in
      (r, ground arith, First-next mem ch p miss (p + suc (length cs) + 1) r (rw e at f))
]

-- `strchr` of a string returns, given more fuel than it has characters: the first address of the
-- string, its NUL included, where the character `ch` stands, or `NULL` if there is none.
pub strchr-First :
    (mem : Memory) (fuel p ch : ℕ) (cs : List ℕ)
    → IsStr mem p cs
    → length cs < fuel
    → (r : Option ℕ) × (strchr mem fuel p ch ≡ done r) × First mem ch p (p + length cs + 1) r
unfolding strchr
strchr-First mem fuel p ch cs h lt = strchr_loop-First mem ch fuel p cs h lt

Last-next :
    (mem : Memory) (ch from p : ℕ) (last : Option ℕ)
    → from ≤ p
    → Last mem ch from p last
    → Last mem ch from (p + 1) (if extend (mem p) == ch then some p else last)
Last-next mem ch from p last le h = elim (ℕ_discrete (extend (mem p)) ch) [
  | yes hit ↦ rw ((==_iff (extend (mem p)) ch).1 hit) (le, omega arith, hit, λ a lo hi. omega arith)
  | no miss ↦ rw (==_of_ne (extend (mem p)) ch miss) (keep last h miss)
]
  where
    keep : (o : Option ℕ) → Last mem ch from p o → extend (mem p) ≢ ch → Last mem ch from (p + 1) o
    keep none g miss =
        λ a lo hi. elim (ℕ_discrete a p) [ yes e ↦ rw e miss | no ne ↦ g a lo (omega arith) ]
    keep (some q) g miss = (
      g.0,
      omega (arith, g.1),
      g.2,
      λ a lo hi. elim (ℕ_discrete a p) [ yes e ↦ rw e miss | no ne ↦ g.3 a lo (omega arith) ],
    )

strrchr_step :
    (mem : Memory) (ch k p : ℕ) (last : Option ℕ)
    → mem p ≢ 0
    → strrchr_loop mem ch (suc k) p last
      ≡ strrchr_loop mem ch k (p + 1) (if extend (mem p) == ch then some p else last)
unfolding strrchr_loop
strrchr_step mem ch k p last ne = ground arith

strrchr_loop-Last :
    (mem : Memory) (ch from k p : ℕ) (last : Option ℕ) (cs : List ℕ)
    → IsStr mem p cs
    → length cs < k
    → from ≤ p
    → Last mem ch from p last
    → (r : Option ℕ) × (strrchr_loop mem ch k p last ≡ done r)
      × Last mem ch from (p + length cs + 1) r
unfolding strrchr_loop
strrchr_loop-Last mem ch from zero p last cs h lt le before = absurd (omega arith)
strrchr_loop-Last mem ch from (suc k) p last [] h lt le before =
    let e : p + 0 + 1 ≡ p + 1 = omega arith in
    (
      (if extend (mem p) == ch then some p else last),
      ground arith,
      rw e (Last-next mem ch from p last le before),
    )
strrchr_loop-Last mem ch from (suc k) p last (c ∷ cs) h lt le before =
    let (r, run, f) =
      strrchr_loop-Last mem ch from k (p + 1) (if extend (mem p) == ch then some p else last) cs h.2
        (omega arith) (omega arith) (Last-next mem ch from p last le before) in
    let e : p + 1 + length cs + 1 ≡ p + suc (length cs) + 1 = omega arith in
    (r, strrchr_step mem ch k p last (ground arith) ∙ run, rw e at f)

-- `strrchr` of a string returns, given more fuel than it has characters: the last address of the
-- string, its NUL included, where the character `ch` stands, or `NULL` if there is none.
pub strrchr-Last :
    (mem : Memory) (fuel p ch : ℕ) (cs : List ℕ)
    → IsStr mem p cs
    → length cs < fuel
    → (r : Option ℕ) × (strrchr mem fuel p ch ≡ done r) × Last mem ch p (p + length cs + 1) r
unfolding strrchr
strrchr-Last mem fuel p ch cs h lt =
    strrchr_loop-Last mem ch p fuel p none cs h lt (omega arith) (λ a lo hi. absurd (omega arith))
