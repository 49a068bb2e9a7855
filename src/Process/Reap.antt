-- ===== src/Process/Reap.antt =====
-- Waiting for a child that has exited keeps the invariant.
use os_store.Base.{
  ℕ, ◌<◌, ◌≤◌, ◌≡◌, ap, sym, ◌∙◌, true, false, inl, inr, none, ◌==◌, arith, Bool-cases, ==_iff,
}
use os_store.Process.{Table, put}
use os_store.Process.Table.{there, dead, alive, waits, parent, pid_of, wanted}
use os_store.Process.System.{Inv, matches}
use os_store.Process.Keep.{put-cases, alive-not_dead}

-- A task that has exited leaves the table; nobody is its child.
pub reap-Inv : (t : Table) (i : ℕ) → Inv t → 2 ≤ i → dead (t i) ≡ true → Inv (put i none t)
reap-Inv t i v l d =
    let off : (q : ℕ) → alive (t q) ≡ true → (q == i) ≡ false = λ q a. elim (Bool-cases (q == i)) [
      | inr k ↦ k
      | inl k ↦
          ground (arith, sym (alive-not_dead (t q) a) ∙ ap (λ x. dead (t x)) ((==_iff q i).0 k) ∙ d)
    ] in
    let same : (q : ℕ) → (q == i) ≡ false → put i none t q ≡ t q = λ q k. rw k in
    let still : (q : ℕ) → alive (t q) ≡ true → alive (put i none t q) ≡ true =
      λ q a. ap alive (same q (off q a)) ∙ a in
    let one : (1 == i) ≡ false = ground (arith, l) in
    record {
      rank = v.rank;
      numbered = λ q.
          put-cases (λ o. there o ≡ true → pid_of o ≡ q) i none t q (λ k h. ground (arith, h))
            (λ k h. v.numbered q h);
      bounded = λ q.
          put-cases (λ o. there o ≡ true → q < 64) i none t q (λ k h. ground (arith, h))
            (λ k h. v.bounded q h);
      parents = λ q.
          put-cases (λ o. there o ≡ true → alive (put i none t (parent o)) ≡ true) i none t q
            (λ k h. ground (arith, h)) (λ k h. still (parent (t q)) (v.parents q h));
      ranked = λ q.
          put-cases (λ o. there o ≡ true → (q == 0) ≡ false → v.rank (parent o) < v.rank q) i none t
            q (λ k h. ground (arith, h)) (λ k h z. v.ranked q h z);
      idle = still 0 v.idle;
      idle_parent = ap parent (same 0 (off 0 v.idle)) ∙ v.idle_parent;
      init = ap there (same 1 one) ∙ v.init;
      init_parent = ap parent (same 1 one) ∙ v.init_parent;
      expected = λ q.
          put-cases
            (λ o.
              waits o ≡ true
              → (c : ℕ) × (2 ≤ c)
                × (alive (put i none t c) ≡ true)
                × (parent (put i none t c) ≡ q)
                × (matches (wanted o) c ≡ true))
            i none t q (λ k h. ground (arith, h))
            (λ k h.
              let (c, y, a, f, m) = v.expected q h in
              (c, y, still c a, ap parent (same c (off c a)) ∙ f, m));
      no_zombie = λ q c.
          put-cases
            (λ o.
              waits o ≡ true
              → 2 ≤ c
              → dead (put i none t c) ≡ true
              → parent (put i none t c) ≡ q
              → matches (wanted o) c ≡ false)
            i none t q (λ k h. ground (arith, h))
            (λ k h y.
              put-cases (λ o. dead o ≡ true → parent o ≡ q → matches (wanted (t q)) c ≡ false) i
                none t c (λ x z. ground (arith, z)) (λ x z f. v.no_zombie q c h y z f));
    }
