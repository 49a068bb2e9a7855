-- ===== src/Namei/Names.antt =====
-- The parts of a path name: the first and the last separator, and a name against the first part.
use os_store.Base.{
  ℕ, zero, suc, ◌+◌, ◌<◌, ◌≡◌, ◌≢◌, Bool, true, false, ◌&&◌, none, some, List, [], ◌∷◌, length,
  ◌==◌, if◌then◌else◌, arith, done, ◌>>=◌, Bool-cases, inl, inr,
}
use os_store.Base.Memory.{Memory, IsStr}
use os_store.Namei.{is_separator, strsep, match_loop, match_end, match_name}

-- the first part of a path
abbrev pub component : List ℕ → List ℕ
component [] = []
component (c ∷ cs) = let rest = component cs in if is_separator c then [] else c ∷ rest

-- the number of characters up to and with the first separator
abbrev pub beyond : List ℕ → ℕ
beyond [] = 0
beyond (c ∷ cs) = let rest = beyond cs in if is_separator c then 1 else suc rest

abbrev pub same : List ℕ → List ℕ → Bool
same [] [] = true
same (c ∷ cs) (e ∷ es) = c == e && same cs es
same _ _ = false

abbrev pub NoSeparator : List ℕ → Type 0
NoSeparator [] = Unit
NoSeparator (c ∷ cs) = (is_separator c ≡ false) × NoSeparator cs

nul : (c : ℕ) → c ≢ 0 → (c == 0) ≡ false
nul c n = ground (arith, n)

module _ (mem : Memory) where
  match_loop-same :
      (k name entry : ℕ) (cs es : List ℕ)
      → IsStr mem name cs
      → IsStr mem entry es
      → NoSeparator es
      → length es < k
      → match_loop mem k name entry >>= (λ p. done (match_end mem p))
        ≡ done (if same (component cs) es then some (name + beyond cs) else none)
  unfolding match_loop
  match_loop-same zero name entry cs es s t n f = absurd (omega arith)
  match_loop-same (suc k) name entry [] [] s t n f = ground (arith, s, t)
  match_loop-same (suc k) name entry [] (e ∷ es) s (t, u, ts) n f = ground (arith, s, t, u)
  match_loop-same (suc k) name entry (c ∷ cs) [] (s, u, ss) t n f = ground (arith, s, t, u)
  match_loop-same (suc k) name entry (c ∷ cs) (e ∷ es) (s, u, ss) (t, w, ts) (i, n) f =
      elim (Bool-cases (c == e)) [
        | inl q ↦ ground (
          arith,
          s,
          t,
          u,
          w,
          q,
          i,
          match_loop-same k (name + 1) (entry + 1) cs es ss ts n (omega arith),
        )
        | inr q ↦ ground (arith, s, t, u, w, q)
      ]

  -- `match_name` returns. It is true if and only if the entry's name, which has no separator, is the first
  -- part of the path, and then `next` points behind that part and its separator.
  pub match_name-same :
      (fuel name entry : ℕ) (cs es : List ℕ)
      → IsStr mem name cs
      → IsStr mem entry es
      → NoSeparator es
      → length es < fuel
      → match_name mem fuel name entry
        ≡ done (if same (component cs) es then some (name + beyond cs) else none)
  unfolding match_name
  match_name-same fuel name entry cs es s t n f = match_loop-same fuel name entry cs es s t n f

  -- `strsep` finds the end of the first part, or that there is no separator.
  pub strsep-component :
      (fuel str : ℕ) (cs : List ℕ)
      → IsStr mem str cs
      → length cs < fuel
      → strsep mem fuel str
        ≡ done (
            if length (component cs) == length cs then none else some (str + length (component cs)))
  unfolding strsep
  strsep-component zero str cs s f = absurd (omega arith)
  strsep-component (suc k) str [] s f = rw (strsep, s, s)
  strsep-component (suc k) str (c ∷ cs) (s, u, ss) f = elim (Bool-cases (is_separator c)) [
    | inl q ↦ ground (arith, s, q)
    | inr q ↦ ground (arith, s, u, q, strsep-component k (str + 1) cs ss (omega arith))
  ]
