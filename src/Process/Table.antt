-- ===== src/Process/Table.antt =====
-- What fork, exit and waitpid do to each entry of the table.
use mathlib.Core.Path.{subst}
use os_store.Base.{
  ℕ, zero, suc, ◌+◌, ◌<◌, ◌≤◌, ◌≡◌, refl, ap, sym, ◌∙◌, Bool, true, false, not, ◌&&◌, ◌⊎◌, inl, inr,
  Option, none, some, ltb, leb, ◌==◌, if◌then◌else◌, arith, done, panic, Bool-cases, ==_iff,
  ==-refl,
}
use os_store.Task.{is, waiting, died}
use os_store.Process.{
  Proc, Table, free_loop, adopt_one, adopt_loop, child_loop, Found, dead_child, others, is_wanted,
}

abbrev pub there : Option Proc → Bool
there none = false
there (some p) = true

abbrev pub dead : Option Proc → Bool
dead none = false
dead (some p) = is p.state died

abbrev pub alive : Option Proc → Bool
alive none = false
alive (some p) = not (is p.state died)

abbrev pub waits : Option Proc → Bool
waits none = false
waits (some p) = is p.state waiting

abbrev pub parent : Option Proc → ℕ
parent none = 0
parent (some p) = p.ppid

abbrev pub pid_of : Option Proc → ℕ
pid_of none = 0
pid_of (some p) = p.pid

abbrev pub wanted : Option Proc → ℕ
wanted none = 0
wanted (some p) = p.waitpid

-- The free task is a free entry, below those looked at.
pub free_loop-free :
    (left i : ℕ) (t : Table)
    → (free_loop left i t ≡ panic)
      ⊎ ((j : ℕ) × (free_loop left i t ≡ done j) × (t j ≡ none) × (j < i + left))
unfolding free_loop
free_loop-free zero i t = inl refl
free_loop-free (suc left) i t = go (t i) refl (free_loop-free left (i + 1) t)
  where
    go :
        (o : Option Proc)
        → t i ≡ o
        → (free_loop left (i + 1) t ≡ panic)
          ⊎ ((j : ℕ) × (free_loop left (i + 1) t ≡ done j) × (t j ≡ none) × (j < i + 1 + left))
        → (free_loop (suc left) i t ≡ panic)
          ⊎ ((j : ℕ) × (free_loop (suc left) i t ≡ done j) × (t j ≡ none) × (j < i + suc left))
    go none e r = inr (i, rw (free_loop, e), e, omega arith)
    go (some p) e (inl q) = inl (rw (free_loop, e, q))
    go (some p) e (inr (j, q, f, l)) = inr (j, rw (free_loop, e, q), f, omega arith)

-- the new parent, where the old one is `pid`
abbrev pub adopt : (pid ppid : ℕ) → Option Proc → Option Proc
adopt pid ppid none = none
adopt pid ppid (some p) = if p.ppid == pid then some (record p { ppid = ppid }) else some p

adopt_one-adopt :
    (i pid ppid : ℕ) (t : Table) (q : ℕ)
    → adopt_one i pid ppid t q ≡ (if q == i then adopt pid ppid (t q) else t q)
unfolding adopt_one
adopt_one-adopt i pid ppid t q = elim (Bool-cases (q == i)) [
  | inl k ↦ rw (k, (==_iff q i).0 k) (same (t i) refl)
  | inr k ↦ rw k (other (t i) refl k)
]
  where
    same : (o : Option Proc) → t i ≡ o → adopt_one i pid ppid t i ≡ adopt pid ppid (t i)
    same none e = rw (adopt_one, e, e)
    same (some p) e = elim (Bool-cases (p.ppid == pid)) [
      | inl k ↦ rw (adopt_one, e, k, ==-refl i)
      | inr k ↦ rw (adopt_one, e, k, e)
    ]

    other : (o : Option Proc) → t i ≡ o → (q == i) ≡ false → adopt_one i pid ppid t q ≡ t q
    other none e n = rw (adopt_one, e)
    other (some p) e n = elim (Bool-cases (p.ppid == pid)) [
      | inl k ↦ rw (adopt_one, e, k, n)
      | inr k ↦ rw (adopt_one, e, k)
    ]

pub adopt_loop-adopt :
    (left i pid ppid : ℕ) (t : Table) (q : ℕ)
    → adopt_loop left i pid ppid t q
      ≡ (if leb i q && ltb q (i + left) then adopt pid ppid (t q) else t q)
unfolding adopt_loop
adopt_loop-adopt zero i pid ppid t q = ground arith
adopt_loop-adopt (suc left) i pid ppid t q = ground (
  arith,
  adopt_loop-adopt left (i + 1) pid ppid (adopt_one i pid ppid t) q,
  adopt_one-adopt i pid ppid t q,
)

abbrev pub is_child : (parent pid : ℕ) → Option Proc → Bool
is_child parent pid none = false
is_child parent pid (some p) = is_wanted parent pid p

-- What a search over the indices from `i` up to `to` tells: a dead child that is waited for, or that there
-- is none, and whether there is another one (or was one before).
abbrev pub Finds : (i to parent pid : ℕ) → Bool → Table → Found → Type 0
Finds i to parent pid before t (dead_child j p) =
    (i ≤ j) × (j < to) × (t j ≡ some p) × (is_wanted parent pid p ≡ true) × (is p.state died ≡ true)
Finds i to parent pid before t (others b) =
    ((j : ℕ)
      → i ≤ j
      → j < to
      → is_child parent pid (t j) ≡ true
      → (dead (t j) ≡ false) × (b ≡ true))
    × (before ≡ true → b ≡ true)
    × (b ≡ true
        → (before ≡ true)
          ⊎ ((j : ℕ) × (i ≤ j)
              × (j < to)
              × (is_child parent pid (t j) ≡ true)
              × (alive (t j) ≡ true)))

-- a search that goes on behind an entry
Finds-next :
    (i to parent pid : ℕ) (b b' : Bool) (t : Table) (f : Found)
    → i < to
    → (is_child parent pid (t i) ≡ true → (dead (t i) ≡ false) × (b' ≡ true))
    → (b ≡ true → b' ≡ true)
    → (b' ≡ true → (b ≡ true) ⊎ ((is_child parent pid (t i) ≡ true) × (alive (t i) ≡ true)))
    → Finds (i + 1) to parent pid b' t f
    → Finds i to parent pid b t f
Finds-next i to parent pid b b' t (dead_child j p) l o k m (lo, hi, e, w, d) =
    (omega arith, hi, e, w, d)
Finds-next i to parent pid b b' t (others c) l o k m (all, keep, why) = (
  λ j lo hi w. elim (Bool-cases (j == i)) [
    | inl q ↦
        let e : j ≡ i = (==_iff j i).0 q in
        let (d, y) = o (ap (λ x. is_child parent pid (t x)) (sym e) ∙ w) in
        (ap (λ x. dead (t x)) e ∙ d, keep y)
    | inr q ↦ all j (ground (arith, lo, q)) hi w
  ],
  λ e. keep (k e),
  λ e. elim (why e) [
    | inl y ↦ elim (m y) [ inl z ↦ inl z | inr (w, a) ↦ inr (i, omega arith, l, w, a) ]
    | inr (j, lo, hi, w, a) ↦ inr (j, omega arith, hi, w, a)
  ],
)

pub child_loop-Finds :
    (left i parent pid : ℕ) (b : Bool) (t : Table)
    → Finds i (i + left) parent pid b t (child_loop left i parent pid b t)
unfolding child_loop
child_loop-Finds zero i parent pid b t =
    (λ j lo hi w. absurd (omega (arith, lo, hi)), λ e. e, λ e. inl e)
child_loop-Finds (suc left) i parent pid b t =
    go (t i) refl (child_loop-Finds left (i + 1) parent pid b t)
      (child_loop-Finds left (i + 1) parent pid true t)
  where
    shift : i + 1 + left ≡ i + suc left
    shift = omega arith

    go :
        (o : Option Proc)
        → t i ≡ o
        → Finds (i + 1) (i + 1 + left) parent pid b t (child_loop left (i + 1) parent pid b t)
        → Finds (i + 1) (i + 1 + left) parent pid true t (child_loop left (i + 1) parent pid true t)
        → Finds i (i + suc left) parent pid b t (child_loop (suc left) i parent pid b t)
    go none e f g =
        rw (child_loop, e)
          (Finds-next i (i + suc left) parent pid b b t (child_loop left (i + 1) parent pid b t)
            (omega arith) (λ w. ground (arith, sym (ap (is_child parent pid) e) ∙ w)) (λ x. x)
            (λ x. inl x)
            (subst (λ to. Finds (i + 1) to parent pid b t (child_loop left (i + 1) parent pid b t))
              shift f))
    go (some p) e f g =
        let c : is_child parent pid (t i) ≡ is_wanted parent pid p = ap (is_child parent pid) e in
        elim (Bool-cases (is_wanted parent pid p)) [
          | inr w ↦
              rw (child_loop, e, w)
                (Finds-next i (i + suc left) parent pid b b t
                  (child_loop left (i + 1) parent pid b t) (omega arith)
                  (λ x. ground (arith, sym c ∙ x, w)) (λ x. x) (λ x. inl x)
                  (subst
                    (λ to. Finds (i + 1) to parent pid b t (child_loop left (i + 1) parent pid b t))
                    shift f))
          | inl w ↦ elim (Bool-cases (is p.state died)) [
            | inl d ↦ rw (child_loop, e, w, d) (omega arith, omega arith, e, w, d)
            | inr d ↦
                rw (child_loop, e, w, d)
                  (Finds-next i (i + suc left) parent pid b true t
                    (child_loop left (i + 1) parent pid true t) (omega arith)
                    (λ x. (ap dead e ∙ d, refl)) (λ x. refl)
                    (λ x. inr (c ∙ w, ap alive e ∙ ap not d))
                    (subst
                      (λ to.
                        Finds (i + 1) to parent pid true t
                          (child_loop left (i + 1) parent pid true t))
                      shift g))
          ]
        ]
