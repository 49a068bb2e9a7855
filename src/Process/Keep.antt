-- ===== src/Process/Keep.antt =====
-- Each step keeps the invariant of the table.
use os_store.Base.{
  ℕ, suc, ◌<◌, ◌≤◌, ◌≡◌, refl, ap, sym, ◌∙◌, true, false, not, inl, inr, Option, none, some, ◌==◌,
  if◌then◌else◌, arith, Bool-cases, ==_iff,
}
use os_store.Task.{is, waiting, died}
use os_store.Process.{Proc, Table, put}
use os_store.Process.Table.{there, dead, alive, waits, parent, pid_of, wanted}
use os_store.Process.System.{Inv, matches}

-- a property of an entry after a write
pub put-cases {ℓ} :
    (P : Option Proc → Type ℓ) (i : ℕ) (o : Option Proc) (t : Table) (q : ℕ)
    → ((q == i) ≡ true → P o)
    → ((q == i) ≡ false → P (t q))
    → P (put i o t q)
put-cases P i o t q f g = elim (Bool-cases (q == i)) [ inl k ↦ rw k (f k) | inr k ↦ rw k (g k) ]

pub alive-there : (o : Option Proc) → alive o ≡ true → there o ≡ true
alive-there none e = ground (arith, e)
alive-there (some p) e = refl

pub dead-there : (o : Option Proc) → dead o ≡ true → there o ≡ true
dead-there none e = ground (arith, e)
dead-there (some p) e = refl

pub waits-there : (o : Option Proc) → waits o ≡ true → there o ≡ true
waits-there none e = ground (arith, e)
waits-there (some p) e = refl

module _ (t : Table) (v : Inv t) (c j : ℕ) (ch : Proc) (ac : alive (t c) ≡ true)
    (fj : t j ≡ none) where
  abbrev new : Table
  new = put j (some ch) t

  away : (q : ℕ) → there (t q) ≡ true → (q == j) ≡ false
  away q e = elim (Bool-cases (q == j)) [
    | inr k ↦ k
    | inl k ↦ ground (arith, sym e ∙ ap (λ x. there (t x)) ((==_iff q j).0 k) ∙ ap there fj)
  ]

  same : (q : ℕ) → there (t q) ≡ true → new q ≡ t q
  same q e = rw (away q e)

  still : (q : ℕ) → alive (t q) ≡ true → alive (new q) ≡ true
  still q e = ap alive (same q (alive-there (t q) e)) ∙ e

  -- a new child `j` of task `c`
  pub fork-Inv :
      j < 64
      → ch.pid ≡ j
      → ch.ppid ≡ c
      → is ch.state died ≡ false
      → is ch.state waiting ≡ false
      → Inv new
  fork-Inv lj n p d w = record {
    rank = λ q. if q == j then suc (v.rank c) else v.rank q;
    numbered = λ q.
        put-cases (λ e. there e ≡ true → pid_of e ≡ q) j (some ch) t q
          (λ k _. n ∙ sym ((==_iff q j).0 k)) (λ k h. v.numbered q h);
    bounded = λ q.
        put-cases (λ e. there e ≡ true → q < 64) j (some ch) t q (λ k _. ground (arith, k))
          (λ k h. v.bounded q h);
    parents = λ q.
        put-cases (λ e. there e ≡ true → alive (new (parent e)) ≡ true) j (some ch) t q
          (λ k _. ap (λ x. alive (new x)) p ∙ still c ac)
          (λ k h. still (parent (t q)) (v.parents q h));
    ranked = λ q.
        put-cases
          (λ e.
            there e ≡ true
            → (q == 0) ≡ false
            → (if parent e == j then suc (v.rank c) else v.rank (parent e))
              < (if q == j then suc (v.rank c) else v.rank q))
          j (some ch) t q (λ k _ z. rw (p, k, away c (alive-there (t c) ac)) (omega arith))
          (λ k h z.
            rw (k, away (parent (t q)) (alive-there (t (parent (t q))) (v.parents q h)))
              (v.ranked q h z));
    idle = still 0 v.idle;
    idle_parent = ap parent (same 0 (alive-there (t 0) v.idle)) ∙ v.idle_parent;
    init = ap there (same 1 v.init) ∙ v.init;
    init_parent = ap parent (same 1 v.init) ∙ v.init_parent;
    expected = λ q.
        put-cases
          (λ e.
            waits e ≡ true
            → (k : ℕ) × (2 ≤ k)
              × (alive (new k) ≡ true)
              × (parent (new k) ≡ q)
              × (matches (wanted e) k ≡ true))
          j (some ch) t q (λ k h. ground (arith, h, w))
          (λ k h.
            let (x, l, a, f, m) = v.expected q h in
            (x, l, still x a, ap parent (same x (alive-there (t x) a)) ∙ f, m));
    no_zombie = λ q x.
        put-cases
          (λ e.
            waits e ≡ true
            → 2 ≤ x
            → dead (new x) ≡ true
            → parent (new x) ≡ q
            → matches (wanted e) x ≡ false)
          j (some ch) t q (λ k h. ground (arith, h, w))
          (λ k h l.
            put-cases (λ e. dead e ≡ true → parent e ≡ q → matches (wanted (t q)) x ≡ false) j
              (some ch) t x (λ y z. ground (arith, d, z)) (λ y z f. v.no_zombie q x h l z f));
  }

-- a task's state changes, and neither before nor after is it dead
pub restate-Inv :
    (t : Table) (i : ℕ) (p p' : Proc)
    → Inv t
    → t i ≡ some p
    → p'.pid ≡ p.pid
    → p'.ppid ≡ p.ppid
    → is p.state died ≡ false
    → is p'.state died ≡ false
    → (is p'.state waiting ≡ true
        → ((c : ℕ) × (2 ≤ c)
            × (alive (t c) ≡ true)
            × (parent (t c) ≡ i)
            × (matches p'.waitpid c ≡ true))
          × ((c : ℕ) → 2 ≤ c → dead (t c) ≡ true → parent (t c) ≡ i → matches p'.waitpid c ≡ false))
    → Inv (put i (some p') t)
restate-Inv t i p p' v e n m d d' w =
    let live : (q : ℕ) → alive (put i (some p') t q) ≡ alive (t q) = λ q.
      put-cases (λ o. alive o ≡ alive (t q)) i (some p') t q
        (λ k. ap not d' ∙ sym (ap (λ x. alive (t x)) ((==_iff q i).0 k) ∙ ap alive e ∙ ap not d))
        (λ k. refl) in
    let gone : (q : ℕ) → dead (put i (some p') t q) ≡ dead (t q) = λ q.
      put-cases (λ o. dead o ≡ dead (t q)) i (some p') t q
        (λ k. d' ∙ sym (ap (λ x. dead (t x)) ((==_iff q i).0 k) ∙ ap dead e ∙ d)) (λ k. refl) in
    let used : (q : ℕ) → there (put i (some p') t q) ≡ there (t q) = λ q.
      put-cases (λ o. there o ≡ there (t q)) i (some p') t q
        (λ k. sym (ap (λ x. there (t x)) ((==_iff q i).0 k) ∙ ap there e)) (λ k. refl) in
    let above : (q : ℕ) → parent (put i (some p') t q) ≡ parent (t q) = λ q.
      put-cases (λ o. parent o ≡ parent (t q)) i (some p') t q
        (λ k. m ∙ sym (ap (λ x. parent (t x)) ((==_iff q i).0 k) ∙ ap parent e)) (λ k. refl) in
    let named : (q : ℕ) → pid_of (put i (some p') t q) ≡ pid_of (t q) = λ q.
      put-cases (λ o. pid_of o ≡ pid_of (t q)) i (some p') t q
        (λ k. n ∙ sym (ap (λ x. pid_of (t x)) ((==_iff q i).0 k) ∙ ap pid_of e)) (λ k. refl) in
    record {
      rank = v.rank;
      numbered = λ q h. named q ∙ v.numbered q (sym (used q) ∙ h);
      bounded = λ q h. v.bounded q (sym (used q) ∙ h);
      parents = λ q h.
          live (parent (put i (some p') t q))
          ∙ ap (λ x. alive (t x)) (above q)
          ∙ v.parents q (sym (used q) ∙ h);
      ranked = λ q h z. rw (above q) (v.ranked q (sym (used q) ∙ h) z);
      idle = live 0 ∙ v.idle;
      idle_parent = above 0 ∙ v.idle_parent;
      init = used 1 ∙ v.init;
      init_parent = above 1 ∙ v.init_parent;
      expected = λ q.
          put-cases
            (λ o.
              waits o ≡ true
              → (c : ℕ) × (2 ≤ c)
                × (alive (put i (some p') t c) ≡ true)
                × (parent (put i (some p') t c) ≡ q)
                × (matches (wanted o) c ≡ true))
            i (some p') t q
            (λ k h.
              let (c, l, a, f, y) = (w h).0 in
              (c, l, live c ∙ a, above c ∙ f ∙ sym ((==_iff q i).0 k), y))
            (λ k h. let (c, l, a, f, y) = v.expected q h in (c, l, live c ∙ a, above c ∙ f, y));
      no_zombie = λ q c.
          put-cases
            (λ o.
              waits o ≡ true
              → 2 ≤ c
              → dead (put i (some p') t c) ≡ true
              → parent (put i (some p') t c) ≡ q
              → matches (wanted o) c ≡ false)
            i (some p') t q
            (λ k h l y f. (w h).1 c l (sym (gone c) ∙ y) (sym (above c) ∙ f ∙ (==_iff q i).0 k))
            (λ k h l y f. v.no_zombie q c h l (sym (gone c) ∙ y) (sym (above c) ∙ f));
    }

pub alive-not_dead : (o : Option Proc) → alive o ≡ true → dead o ≡ false
alive-not_dead none e = refl
alive-not_dead (some p) e = ground (arith, e)
