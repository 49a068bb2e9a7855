-- ===== src/Namei/Parent.antt =====
-- The last separator of a path, and the working directory's path after a change to "..".
use mathlib.Core.Path.{subst}
use mathlib.Core.List.{append_assoc}
use os_store.Base.Int.{pos}
use os_store.Base.{
  ℕ, zero, suc, ◌+◌, ◌-◌, ◌<◌, ◌≤◌, ◌≡◌, refl, ap, sym, ◌∙◌, true, false, Option, none, some, List,
  [], ◌∷◌, ◌++◌, length, length-append, ◌==◌, arith, done, Bool-cases, inl, inr, ==_iff,
}
use os_store.Base.Memory.{Memory, IsStr, IsStr-same, write}
use os_store.Cstring.{strcmp}
use os_store.Cstring.Compare.{strcmp-compare_strings, compare_strings}
use os_store.Namei.{
  is_separator, strsep, strrsep_loop, strrsep, up, Literals, abspath_loop, abspath, abspath_start,
  abspath_end,
}
use os_store.Namei.Names.{NoSeparator, strsep-component}

module _ (mem : Memory) where
  strrsep_loop-none :
      (k p : ℕ) (last : Option ℕ) (cs : List ℕ)
      → IsStr mem p cs
      → NoSeparator cs
      → length cs < k
      → strrsep_loop mem k p last ≡ done last
  unfolding strrsep_loop
  strrsep_loop-none zero p last cs s n f = absurd (omega arith)
  strrsep_loop-none (suc k) p last [] s n f = ground (arith, s)
  strrsep_loop-none (suc k) p last (c ∷ cs) (s, u, ss) (q, n) f =
      ground (arith, s, u, q, strrsep_loop-none k (p + 1) last cs ss n (omega arith))

  strrsep_loop-some :
      (k p : ℕ) (last : Option ℕ) (xs : List ℕ) (a : ℕ) (ys : List ℕ)
      → IsStr mem p (xs ++ a ∷ ys)
      → is_separator a ≡ true
      → NoSeparator ys
      → length (xs ++ a ∷ ys) < k
      → strrsep_loop mem k p last ≡ done (some (p + length xs))
  unfolding strrsep_loop
  strrsep_loop-some zero p last xs a ys s q n f = absurd (omega arith)
  strrsep_loop-some (suc k) p last [] a ys (s, u, ss) q n f =
      ground (arith, s, u, q, strrsep_loop-none k (p + 1) (some p) ys ss n (omega arith))
  strrsep_loop-some (suc k) p last (x ∷ xs) a ys (s, u, ss) q n f = ground (
    arith,
    s,
    u,
    q,
    strrsep_loop-some k (p + 1) last xs a ys ss q n (omega arith),
    strrsep_loop-some k (p + 1) (some p) xs a ys ss q n (omega arith),
  )

  -- `strrsep` finds the last separator.
  pub strrsep-Last :
      (fuel p : ℕ) (xs : List ℕ) (a : ℕ) (ys : List ℕ)
      → IsStr mem p (xs ++ a ∷ ys)
      → is_separator a ≡ true
      → NoSeparator ys
      → length (xs ++ a ∷ ys) < fuel
      → strrsep mem fuel p ≡ done (some (p + length xs))
  unfolding strrsep
  strrsep-Last fuel p xs a ys s q n f = strrsep_loop-some fuel p none xs a ys s q n f

  -- a string ends where a NUL is written into it
  IsStr-cut :
      (p q : ℕ) (xs ys : List ℕ)
      → q ≡ p + length xs
      → IsStr mem p (xs ++ ys)
      → IsStr (write mem q 0) p xs
  IsStr-cut p q [] ys e s = ground (arith, e)
  IsStr-cut p q (x ∷ xs) ys e (s, u, ss) =
      let n : (p == q) ≡ false = ground (arith, e) in
      (rw n s, u, IsStr-cut (p + 1) q xs ys (omega (arith, e)) ss)

  end-of : (p : ℕ) (cs : List ℕ) → IsStr mem p cs → mem (p + length cs) ≡ 0
  end-of p [] s = ap mem (omega arith) ∙ s
  end-of p (c ∷ cs) (s, u, ss) = ap mem (omega arith) ∙ end-of (p + 1) cs ss

  write_again : (q : ℕ) → mem q ≡ 0 → (a : ℕ) → write mem q 0 a ≡ mem a
  write_again q e a = elim (Bool-cases (a == q)) [
    | inl k ↦ rw k (sym (ap mem ((==_iff a q).0 k) ∙ e))
    | inr k ↦ rw k refl
  ]

-- one name is taken off a path that ends with a separator
up-IsStr :
    (mem : Memory) (fuel p cur : ℕ) (xs : List ℕ) (a : ℕ) (ys : List ℕ) (b : ℕ)
    → IsStr mem p ((xs ++ a ∷ ys) ++ b ∷ [])
    → is_separator a ≡ true
    → NoSeparator ys
    → cur ≡ p + length ((xs ++ a ∷ ys) ++ b ∷ [])
    → length ((xs ++ a ∷ ys) ++ b ∷ []) ≤ fuel
    → (r : ℕ) × (g : Memory) × (up fuel p cur mem ≡ done (r, g)) × IsStr g p (xs ++ a ∷ [])
unfolding up
up-IsStr mem fuel p cur xs a ys b s q n e f =
    let zs : List ℕ = xs ++ a ∷ ys in
    let w : length (zs ++ b ∷ []) ≡ length zs + 1 = length-append zs (b ∷ []) in
    let w' : length zs ≡ length xs + suc (length ys) = length-append xs (a ∷ ys) in
    let mem1 : Memory = write mem (cur - 1) 0 in
    let t : IsStr mem1 p zs = IsStr-cut mem p (cur - 1) zs (b ∷ []) (omega (arith, e, w)) s in
    let c : strrsep mem1 fuel p ≡ done (some (p + length xs)) =
      strrsep-Last mem1 fuel p xs a ys t q n (omega (arith, f, w)) in
    let o : (cur - 1 == p) ≡ false = ground (arith, e, w, w') in
    let assoc : (xs ++ a ∷ []) ++ ys ≡ zs = append_assoc xs (a ∷ []) ys in
    (
      p + length xs + 1,
      write mem1 (p + length xs + 1) 0,
      rw (up, o, c),
      IsStr-cut mem1 p (p + length xs + 1) (xs ++ a ∷ []) ys
          (omega (arith, length-append xs (a ∷ []))) (subst (IsStr mem1 p) (sym assoc) t),
    )

-- without a separator ahead the loop of `abspath` ends at once
abspath_loop-last :
    (lit : Literals) (k fuel pwd pathname cur : ℕ) (mem : Memory)
    → (mem pathname == 0) ≡ false
    → strsep mem fuel pathname ≡ done none
    → abspath_loop lit (suc k) fuel pwd pathname cur mem ≡ done (pathname, cur, mem)
unfolding abspath_loop
abspath_loop-last lit k fuel pwd pathname cur mem n e = rw (abspath_loop, n, e)

abspath_end-up :
    (lit : Literals) (fuel pwd pathname cur : ℕ) (mem : Memory) (r : ℕ) (g : Memory)
    → (mem pathname == 0) ≡ false
    → strcmp mem fuel pathname lit.dot ≡ done (pos 1)
    → strcmp mem fuel pathname lit.dots ≡ done (pos 0)
    → up fuel pwd cur mem ≡ done (r, g)
    → abspath_end lit fuel pwd (pathname, cur, mem) ≡ done g
unfolding abspath_end
abspath_end-up lit fuel pwd pathname cur mem r g n here there e =
    rw (abspath_end, n, here, there, e)

abspath_start-behind :
    (fuel pwd pathname p : ℕ) (mem : Memory)
    → is_separator (mem pathname) ≡ false
    → strrsep mem fuel pwd ≡ done (some p)
    → abspath_start fuel pwd pathname mem ≡ done (pathname, p + 1)
unfolding abspath_start
abspath_start-behind fuel pwd pathname p mem n e = rw (abspath_start, n, e)

-- `abspath` of ".." from a directory other than the root returns, and leaves the path of the directory above:
-- the last name of the path goes, with the separator behind it.
pub abspath-parent :
    (lit : Literals) (fuel pwd pathname : ℕ) (mem : Memory) (xs : List ℕ) (a : ℕ) (ys : List ℕ)
    (b : ℕ)
    → IsStr mem pwd ((xs ++ a ∷ ys) ++ b ∷ [])
    → is_separator a ≡ true
    → NoSeparator ys
    → is_separator b ≡ true
    → IsStr mem pathname (46 ∷ 46 ∷ [])
    → IsStr mem lit.dot (46 ∷ [])
    → IsStr mem lit.dots (46 ∷ 46 ∷ [])
    → length ((xs ++ a ∷ ys) ++ b ∷ []) + 3 < fuel
    → (g : Memory) × (abspath lit fuel pwd pathname mem ≡ done g) × IsStr g pwd (xs ++ a ∷ [])
unfolding abspath compare_strings
abspath-parent lit zero pwd pathname mem xs a ys b s qa n qb path dot dots f = absurd (omega arith)
abspath-parent lit (suc k) pwd pathname mem xs a ys b s qa n qb path dot dots f =
    let zs : List ℕ = xs ++ a ∷ ys in
    let cur : ℕ = pwd + length zs + 1 in
    let w : length (zs ++ b ∷ []) ≡ length zs + 1 = length-append zs (b ∷ []) in
    let c : strrsep mem (suc k) pwd ≡ done (some (pwd + length zs)) =
      strrsep-Last mem (suc k) pwd zs b [] s qb tt (omega (arith, f)) in
    let z : mem cur ≡ 0 = ap mem (omega (arith, w)) ∙ end-of mem pwd (zs ++ b ∷ []) s in
    let mem1 : Memory = write mem cur 0 in
    let still : (q : ℕ) (cs : List ℕ) → IsStr mem q cs → IsStr mem1 q cs =
      λ q cs t. IsStr-same mem mem1 q cs (λ r lo hi. write_again mem cur z r) t in
    let path1 : IsStr mem1 pathname (46 ∷ 46 ∷ []) = still pathname (46 ∷ 46 ∷ []) path in
    let here : strcmp mem1 (suc k) pathname lit.dot ≡ done (pos 1) =
      strcmp-compare_strings mem1 (suc k) pathname lit.dot (46 ∷ 46 ∷ []) (46 ∷ []) path1
        (still lit.dot (46 ∷ []) dot) (omega (arith, f)) in
    let there : strcmp mem1 (suc k) pathname lit.dots ≡ done (pos 0) =
      strcmp-compare_strings mem1 (suc k) pathname lit.dots (46 ∷ 46 ∷ []) (46 ∷ 46 ∷ []) path1
        (still lit.dots (46 ∷ 46 ∷ []) dots) (omega (arith, f)) in
    let sep : strsep mem1 (suc k) pathname ≡ done none =
      strsep-component mem1 (suc k) pathname (46 ∷ 46 ∷ []) path1 (omega (arith, f)) in
    let (r, g, e, t) =
      up-IsStr mem1 (suc k) pwd cur xs a ys b (still pwd (zs ++ b ∷ []) s) qa n (omega (arith, w))
        (omega (arith, f)) in
    let nonzero : (mem1 pathname == 0) ≡ false = rw path1.0 refl in
    (
      g,
      rw (
        abspath_start-behind (suc k) pwd pathname (pwd + length zs) mem (ground (arith, path.0)) c,
        abspath_loop-last lit k (suc k) pwd pathname cur mem1 nonzero sep,
        abspath_end-up lit (suc k) pwd pathname cur mem1 r g nonzero here there e,
      ),
      t,
    )
