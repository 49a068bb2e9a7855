-- ===== src/Process/Exit.antt =====
-- An exit keeps the invariant: the task is dead, its children have its parent, and a parent that expects it
-- is woken.
use mathlib.Core.Path.{subst}
use os_store.Base.{
  ℕ, ◌<◌, ◌≤◌, ◌≡◌, refl, ap, sym, ◌∙◌, true, false, ◌⊎◌, inl, inr, Option, none, some, ◌==◌,
  if◌then◌else◌, arith, Bool-cases, ==_iff,
}
use os_store.Task.{died}
use os_store.Process.{Proc, Table}
use os_store.Process.Table.{there, dead, alive, waits, parent, pid_of, wanted, adopt}
use os_store.Process.System.{Inv, matches}
use os_store.Process.Keep.{alive-there, alive-not_dead}

-- the table after the exit of `c` with status `status`, where no one is woken
abbrev pub after_exit : (c status : ℕ) → Proc → Table → Table
after_exit c status pc t q =
    if q == c then some (record pc { state = died; status = status }) else adopt c pc.ppid (t q)

adopt_same {ℓ} :
    {A : Type ℓ} (f : Option Proc → A) (c p : ℕ) (o : Option Proc)
    → ((x : Proc) → f (some (record x { ppid = p })) ≡ f (some x))
    → f (adopt c p o) ≡ f o
adopt_same f c p none h = refl
adopt_same f c p (some x) h = elim (Bool-cases (x.ppid == c)) [ inl k ↦ rw k (h x) | inr k ↦ rw k ]

parent-adopt :
    (c p : ℕ) (o : Option Proc)
    → (c == 0) ≡ false
    → parent (adopt c p o) ≡ (if parent o == c then p else parent o)
parent-adopt c p none h = ground (arith, h)
parent-adopt c p (some x) h = elim (Bool-cases (x.ppid == c)) [ inl k ↦ rw k | inr k ↦ rw k ]

module _ (t : Table) (v : Inv t) (c status : ℕ) (pc : Proc) (e : t c ≡ some pc)
    (z : (c == 0) ≡ false) where
  abbrev pub after : Table
  after = after_exit c status pc t

  pub here : there (t c) ≡ true
  here = ap there e

  pub above : v.rank pc.ppid < v.rank c
  above = subst (λ p. v.rank p < v.rank c) (ap parent e) (v.ranked c here z)

  pub self : (pc.ppid == c) ≡ false
  self = elim (Bool-cases (pc.ppid == c)) [
    | inr k ↦ k
    | inl k ↦ absurd (omega (arith, above, ap v.rank ((==_iff pc.ppid c).0 k)))
  ]

  other {ℓ} :
      {A : Type ℓ} (f : Option Proc → A) (q : ℕ)
      → (q == c) ≡ false
      → ((x : Proc) → f (some (record x { ppid = pc.ppid })) ≡ f (some x))
      → f (after q) ≡ f (t q)
  other f q k h = rw k (adopt_same f c pc.ppid (t q) h)

  at_c {ℓ} :
      {A : Type ℓ} (f : Option Proc → A) (q : ℕ)
      → (q == c) ≡ true
      → f (after q) ≡ f (some (record pc { state = died; status = status }))
  at_c f q k = rw k

  above-after :
      (q : ℕ)
      → (q == c) ≡ false
      → parent (after q) ≡ (if parent (t q) == c then pc.ppid else parent (t q))
  above-after q k = rw k (parent-adopt c pc.ppid (t q) z)

  there-after : (q : ℕ) → there (after q) ≡ there (t q)
  there-after q = elim (Bool-cases (q == c)) [
    | inl k ↦ at_c there q k ∙ sym (ap (λ x. there (t x)) ((==_iff q c).0 k) ∙ here)
    | inr k ↦ other there q k (λ x. refl)
  ]

  alive-after : (q : ℕ) → (q == c) ≡ false → alive (t q) ≡ true → alive (after q) ≡ true
  alive-after q k a = other alive q k (λ x. refl) ∙ a

  -- the parent of `c` lives on
  pub heir : alive (after pc.ppid) ≡ true
  heir = alive-after pc.ppid self (ap (λ o. alive (t (parent o))) (sym e) ∙ v.parents c here)

  -- no entry but `c` itself waits where it did not before
  waits-after : (q : ℕ) → waits (after q) ≡ true → ((q == c) ≡ false) × (waits (t q) ≡ true)
  waits-after q h = elim (Bool-cases (q == c)) [
    | inl k ↦ ground (arith, sym (at_c waits q k) ∙ h)
    | inr k ↦ (k, sym (other waits q k (λ x. refl)) ∙ h)
  ]

  parents-after : (q : ℕ) → there (after q) ≡ true → alive (after (parent (after q))) ≡ true
  parents-after q h = elim (Bool-cases (q == c)) [
    | inl k ↦ ap (λ x. alive (after x)) (at_c parent q k) ∙ heir
    | inr k ↦ elim (Bool-cases (parent (t q) == c)) [
      | inl y ↦ ap (λ x. alive (after x)) (above-after q k ∙ rw y) ∙ heir
      | inr y ↦
          ap (λ x. alive (after x)) (above-after q k ∙ rw y)
          ∙ alive-after (parent (t q)) y (v.parents q (sym (there-after q) ∙ h))
    ]
  ]

  ranked-after :
      (q : ℕ) → there (after q) ≡ true → (q == 0) ≡ false → v.rank (parent (after q)) < v.rank q
  ranked-after q h n = elim (Bool-cases (q == c)) [
    | inl k ↦ rw (at_c parent q k, (==_iff q c).0 k) above
    | inr k ↦
        let r : v.rank (parent (t q)) < v.rank q = v.ranked q (sym (there-after q) ∙ h) n in
        elim (Bool-cases (parent (t q) == c)) [
          | inl y ↦
              rw (above-after q k, y)
                (omega (arith, above, r, ap v.rank ((==_iff (parent (t q)) c).0 y)))
          | inr y ↦ rw (above-after q k, y) r
        ]
  ]

  root-after :
      (q : ℕ) → there (t q) ≡ true → parent (t q) ≡ 0 → (q == c) ≡ false → parent (after q) ≡ 0
  root-after q h p k = above-after q k ∙ ground (arith, p, z)

  -- a child of task `q` that is no zombie of `c` was its child before
  child-before :
      (q x : ℕ)
      → (x == c) ≡ false
      → parent (after x) ≡ q
      → (parent (t x) ≡ q) ⊎ ((parent (t x) ≡ c) × (pc.ppid ≡ q))
  child-before q x k p = elim (Bool-cases (parent (t x) == c)) [
    | inl y ↦ inr ((==_iff (parent (t x)) c).0 y, sym (above-after x k ∙ rw y) ∙ p)
    | inr y ↦ inl (sym (above-after x k ∙ rw y) ∙ p)
  ]

  module _ (unexpected : waits (t pc.ppid) ≡ true → matches (wanted (t pc.ppid)) c ≡ false) where
    expected-after :
        (q : ℕ)
        → waits (after q) ≡ true
        → (x : ℕ) × (2 ≤ x)
          × (alive (after x) ≡ true)
          × (parent (after x) ≡ q)
          × (matches (wanted (after q)) x ≡ true)
    expected-after q h =
        let (k, w) = waits-after q h in
        let (x, l, a, p, m) = v.expected q w in
        elim (Bool-cases (x == c)) [
          | inl y ↦
              let xc : x ≡ c = (==_iff x c).0 y in
              let qp : q ≡ pc.ppid = sym p ∙ ap (λ i. parent (t i)) xc ∙ ap parent e in
              ground (
                arith,
                sym m
                    ∙ ap (λ i. matches (wanted (t q)) i) xc
                    ∙ ap (λ i. matches (wanted (t i)) c) qp
                    ∙ unexpected (ap (λ i. waits (t i)) (sym qp) ∙ w),
              )
          | inr y ↦
              let qc : (parent (t x) == c) ≡ false = ap (λ i. i == c) p ∙ k in
              (
                x,
                l,
                alive-after x y a,
                above-after x y ∙ rw qc p,
                ap (λ i. matches i x) (other wanted q k (λ i. refl)) ∙ m,
              )
        ]

    no_zombie-after :
        (q x : ℕ)
        → waits (after q) ≡ true
        → 2 ≤ x
        → dead (after x) ≡ true
        → parent (after x) ≡ q
        → matches (wanted (after q)) x ≡ false
    no_zombie-after q x h l d p =
        let (k, w) = waits-after q h in
        ap (λ i. matches i x) (other wanted q k (λ i. refl)) ∙ elim (Bool-cases (x == c)) [
          | inl y ↦
              let qp : q ≡ pc.ppid = sym p ∙ at_c parent x y in
              ap (λ i. matches (wanted (t q)) i) ((==_iff x c).0 y)
              ∙ ap (λ i. matches (wanted (t i)) c) qp
              ∙ unexpected (ap (λ i. waits (t i)) (sym qp) ∙ w)
          | inr y ↦
              let dx : dead (t x) ≡ true = sym (other dead x y (λ i. refl)) ∙ d in
              elim (child-before q x y p) [
                | inl b ↦ v.no_zombie q x w l dx b
                | inr (b, f) ↦
                    let u : matches (wanted (t q)) c ≡ false =
                      ap (λ i. matches (wanted (t i)) c) (sym f)
                      ∙ unexpected (ap (λ i. waits (t i)) f ∙ w) in
                    let (s, ls, live, ps, ms) = v.expected q w in
                    elim (Bool-cases (x == s)) [
                      | inl i ↦ ground (
                        arith,
                        sym (alive-not_dead (t s) live)
                            ∙ ap (λ r. dead (t r)) (sym ((==_iff x s).0 i))
                            ∙ dx,
                      )
                      | inr i ↦ ground (arith, u, ms, i)
                    ]
              ]
        ]

    pub after_exit-Inv : Inv after
    after_exit-Inv = record {
      rank = v.rank;
      numbered = λ q h. elim (Bool-cases (q == c)) [
        | inl k ↦ at_c pid_of q k ∙ sym (ap pid_of e) ∙ v.numbered c here ∙ sym ((==_iff q c).0 k)
        | inr k ↦ other pid_of q k (λ x. refl) ∙ v.numbered q (sym (there-after q) ∙ h)
      ];
      bounded = λ q h. v.bounded q (sym (there-after q) ∙ h);
      parents = parents-after;
      ranked = ranked-after;
      idle = alive-after 0 (ground (arith, z)) v.idle;
      idle_parent = root-after 0 (alive-there (t 0) v.idle) v.idle_parent (ground (arith, z));
      init = there-after 1 ∙ v.init;
      init_parent = elim (Bool-cases (1 == c)) [
        | inl k ↦
            at_c parent 1 k
            ∙ sym (ap parent e)
            ∙ sym (ap (λ x. parent (t x)) ((==_iff 1 c).0 k))
            ∙ v.init_parent
        | inr k ↦ root-after 1 v.init v.init_parent k
      ];
      expected = expected-after;
      no_zombie = no_zombie-after;
    }
