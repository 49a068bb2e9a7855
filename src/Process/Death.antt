-- ===== src/Process/Death.antt =====
-- Both parts of an exit, one behind the other.
use mathlib.Core.Path.{subst, fun_ext}
use os_store.Base.{
  ℕ, ◌<◌, ◌≡◌, refl, ap, sym, ◌∙◌, true, false, ◌&&◌, inl, inr, Option, none, some, ltb, leb, ◌==◌,
  if◌then◌else◌, arith, Returns, done, Bool-cases, Option-cases, ==_iff, ==-refl,
}
use os_store.Task.{TaskState, is, running, ready, waiting, died}
use os_store.Process.{Proc, Table, put, expects, adopt_children, exit_begin, exit_end}
use os_store.Process.Table.{there, alive, waits, parent, pid_of, wanted, adopt, adopt_loop-adopt}
use os_store.Process.System.{both_parts, Inv, matches}
use os_store.Process.Keep.{alive-there, restate-Inv}
use os_store.Process.Exit.{after_exit-Inv, above, self, here}

waits-is_died : (s : TaskState) → is s waiting ≡ true → is s died ≡ false
waits-is_died s e = ground (arith, e)

adopt_off : (c p : ℕ) (o : Option Proc) → (parent o == c) ≡ false → adopt c p o ≡ o
adopt_off c p none h = refl
adopt_off c p (some x) h = rw h

module _ (t : Table) (v : Inv t) (c status : ℕ) (pc : Proc) (e : t c ≡ some pc)
    (z : (c == 0) ≡ false) where
  -- the tasks outside the loop are no children of `c`
  outer : (q : ℕ) → (leb 2 q && ltb q 64) ≡ false → adopt c pc.ppid (t q) ≡ t q
  outer q o = elim (Option-cases (t q)) [
    | inl n ↦ rw n
    | inr (p, y) ↦
        let l : q < 64 = v.bounded q (ap there y) in
        let low : (parent (t q) == c) ≡ false = elim (Bool-cases (q == 0)) [
          | inl k ↦ ground (arith, ap (λ x. parent (t x)) ((==_iff q 0).0 k) ∙ v.idle_parent, z)
          | inr k ↦
              let one : q ≡ 1 = ground (arith, o, l, k) in
              ground (arith, ap (λ x. parent (t x)) one ∙ v.init_parent, z)
        ] in
        adopt_off c pc.ppid (t q) low
  ]

  -- the table with the task in state `s`, and its children given to its parent
  abbrev pub left_as : TaskState → Table
  left_as s q =
      if q == c then some (record pc { state = s; status = status }) else adopt c pc.ppid (t q)

  table-left_as :
      (s : TaskState)
      → (q : ℕ)
      → adopt_children c pc.ppid (put c (some (record pc { state = s; status = status })) t) q
        ≡ left_as s q
  unfolding adopt_children
  table-left_as s q =
      adopt_loop-adopt 62 2 c pc.ppid (put c (some (record pc { state = s; status = status })) t) q
      ∙ elim (Bool-cases (q == c)) [
        | inl k ↦
            rw (k, self t v c status pc e z)
              (elim (Bool-cases (leb 2 q && ltb q 64)) [ inl i ↦ rw i | inr i ↦ rw i ])
        | inr k ↦ elim (Bool-cases (leb 2 q && ltb q 64)) [
          | inl i ↦ rw (i, k)
          | inr i ↦ rw (i, k) (sym (outer q i))
        ]
      ]

  pid-c : pc.pid ≡ c
  pid-c = sym (ap pid_of e) ∙ v.numbered c (here t v c status pc e z)

  -- the parent is no child of `c`
  pub no_child : (parent (t pc.ppid) == c) ≡ false
  no_child = elim (Bool-cases (parent (t pc.ppid) == c)) [
    | inr k ↦ k
    | inl k ↦
        let up : v.rank pc.ppid < v.rank c = above t v c status pc e z in
        let there_p : there (t pc.ppid) ≡ true =
          alive-there (t pc.ppid)
            (ap (λ o. alive (t (parent o))) (sym e) ∙ v.parents c (ap there e)) in
        elim (Bool-cases (pc.ppid == 0)) [
          | inl y ↦
              let zero_c : 0 ≡ c =
                sym (ap (λ x. parent (t x)) ((==_iff pc.ppid 0).0 y) ∙ v.idle_parent)
                ∙ (==_iff (parent (t pc.ppid)) c).0 k in
              ground (arith, z, zero_c)
          | inr y ↦ absurd (
              omega (
                arith,
                up,
                v.ranked pc.ppid there_p y,
                ap v.rank ((==_iff (parent (t pc.ppid)) c).0 k),
              ))
        ]
  ]

  -- the parent's entry is as before
  pub parent-same : (s : TaskState) → left_as s pc.ppid ≡ t pc.ppid
  parent-same s = rw (self t v c status pc e z) (adopt_off c pc.ppid (t pc.ppid) no_child)

  -- that table with the parent woken
  abbrev pub woken : TaskState → Proc → Table
  woken s pp = put pc.ppid (some (record pp { state = ready })) (left_as s)

  pub exit_end-eq :
      (s : TaskState) (pp : Proc)
      → t pc.ppid ≡ some pp
      → exit_end c (put c (some (record pc { state = s; status = status })) t)
        ≡ done (if expects pp c then woken s pp else left_as s)
  unfolding exit_end
  exit_end-eq s pp f =
      let t' : Table = put c (some (record pc { state = s; status = status })) t in
      let chain : adopt_children pc.pid pc.ppid t' ≡ left_as s =
        ap (λ x. adopt_children x pc.ppid t') pid-c ∙ fun_ext (table-left_as s) in
      rw (exit_end, ==-refl c, chain, parent-same s, f)
        (ap (λ x. done (if expects pp x then woken s pp else left_as s)) pid-c)

  both_parts-eq :
      (pp : Proc)
      → is pc.state running ≡ true
      → t pc.ppid ≡ some pp
      → both_parts c status t ≡ done (if expects pp c then woken died pp else left_as died)
  unfolding exit_begin
  both_parts-eq pp r f = rw (exit_begin, e, r) (exit_end-eq died pp f)

  woken-Inv : (pp : Proc) → t pc.ppid ≡ some pp → expects pp c ≡ true → Inv (woken died pp)
  woken-Inv pp f x =
      let t' : Table = put pc.ppid (some (record pp { state = ready })) t in
      let w : is pp.state waiting ≡ true = ground (arith, x) in
      let v' : Inv t' =
        restate-Inv t pc.ppid pp (record pp { state = ready }) v f refl refl
          (waits-is_died pp.state w) refl (λ h. ground (arith, h)) in
      let apart : (c == pc.ppid) ≡ false = ground (arith, self t v c status pc e z) in
      let e' : t' c ≡ some pc = rw apart e in
      let entry : t' pc.ppid ≡ some (record pp { state = ready }) = rw (==-refl pc.ppid) in
      let off : (pp.ppid == c) ≡ false = sym (ap (λ o. parent o == c) f) ∙ no_child in
      subst Inv
        (fun_ext (λ q. elim (Bool-cases (q == pc.ppid)) [
          | inl k ↦ rw (k, (==_iff q pc.ppid).0 k, self t v c status pc e z, off)
          | inr k ↦ rw k
        ]))
        (after_exit-Inv t' v' c status pc e' z (λ h. ground (arith, sym (ap waits entry) ∙ h)))

  -- Both parts return, and the invariant holds.
  pub both_parts-Inv : is pc.state running ≡ true → Returns Inv (both_parts c status t)
  both_parts-Inv r = elim (Option-cases (t pc.ppid)) [
    | inl n ↦
        let a : alive (t pc.ppid) ≡ true =
          ap (λ o. alive (t (parent o))) (sym e) ∙ v.parents c (here t v c status pc e z) in
        ground (arith, sym (ap alive n) ∙ a)
    | inr (pp, f) ↦ elim (Bool-cases (expects pp c)) [
      | inl x ↦ rw (both_parts-eq pp r f, x) (woken-Inv pp f x)
      | inr x ↦
          rw (both_parts-eq pp r f, x)
            (after_exit-Inv t v c status pc e z (λ h.
              let w : is pp.state waiting ≡ true = sym (ap waits f) ∙ h in
              ap (λ o. matches (wanted o) c) f ∙ ground (arith, x, w)))
    ]
  ]
