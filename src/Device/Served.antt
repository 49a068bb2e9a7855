-- ===== src/Device/Served.antt =====
-- The requests of one block device: none is passed over, and they are served one at a time.
use mathlib.Core.Path.{subst}
use os_store.Base.{
  ℕ, suc, ◌+◌, ◌≡◌, refl, ap, sym, ◌∙◌, Bool, true, false, ◌⊎◌, inl, inr, Option, none, List, [],
  ◌∷◌, ◌==◌, if◌then◌else◌, length, arith, Returns, done, ◌≢◌, ==-refl, ==_iff, Bool-cases,
}
use os_store.NodeList.{Nodes, ListT, list_init}
use os_store.NodeList.Chain.{member, Holds}
use os_store.NodeList.Order.{insert_by}
use os_store.NodeList.Calls.{Alone, list_init-Holds}
use os_store.Device.{Direct, enqueue, dequeue}
use os_store.Device.Elevator.{back, neighbour, drain, sweep, drain-sweep}
use os_store.Device.Turns.{
  Place, absent, blocked, active, is_present, put, wake, Queue, Ends, arrive, serve, start, Reach,
  begin, later, Inv,
}
use os_store.Device.Moves.{
  next_left, is_nil, enqueue-Alone, dequeue-Alone, member-insert_by, member-back, split-back,
  member-sweep,
}

module _ (l : ListT) where
  start-Inv : (l.head == l.tail) ≡ false → Inv l (start l) []
  unfolding list_init
  start-Inv n = record {
    alone = record {
      holds = list_init-Holds l (record { prev = λ _. none; next = λ _. none }) n;
      clean = λ q o. (ground (arith, o), ground (arith, o));
    };
    present = λ q. refl;
    single = λ q r e f. ground (arith, e);
    busy = inl refl;
  }

  put-cases :
      (r q : ℕ) (p a : Place) (f : ℕ → Place) → put r p f q ≡ a → ((q ≡ r) × (p ≡ a)) ⊎ (f q ≡ a)
  put-cases r q p a f e = elim (Bool-cases (q == r)) [
    | inl k ↦ inl ((==_iff q r).0 k, ground (arith, e, k))
    | inr k ↦ inr (ground (arith, e, k))
  ]

  put_other : (r q : ℕ) (p a : Place) (f : ℕ → Place) → f q ≡ a → f r ≢ a → put r p f q ≡ a
  put_other r q p a f e n = elim (Bool-cases (q == r)) [
    | inl k ↦ absurd (n (sym (ap f ((==_iff q r).0 k)) ∙ e))
    | inr k ↦ rw k e
  ]

  put_self : (r : ℕ) (p : Place) (f : ℕ → Place) → put r p f r ≡ p
  put_self r p f = rw (==-refl r)

  is_present-put :
      (q r : ℕ) (p : Place) (f : ℕ → Place)
      → is_present (put r p f q) ≡ (if q == r then is_present p else is_present (f q))
  is_present-put q r p f = elim (Bool-cases (q == r)) [ inl e ↦ rw e | inr e ↦ rw e ]

  absent-active : absent ≢ active
  absent-active e = ground (arith, e)

  blocked-active : blocked ≢ active
  blocked-active e = ground (arith, e)

  arrived :
      (s : Queue) (xs : List ℕ) (r : ℕ) (key : ℕ → ℕ) (g : Nodes)
      → Inv l s xs
      → s.place r ≡ absent
      → Alone g l (insert_by key r xs)
      → Inv l
          (record {
            nodes = g;
            direct = s.direct;
            place = put r (if is_nil xs then active else blocked) s.place;
          })
          (insert_by key r xs)
  arrived s [] r key g v p a = record {
    alone = a;
    present = λ q. sym (is_present-put q r active s.place ∙ ground (arith, v.present q));
    single = λ q u e f. elim (put-cases r q active active s.place e) [
      | inl (c, _) ↦ elim (put-cases r u active active s.place f) [
        | inl (d, _) ↦ c ∙ sym d
        | inr d ↦ ground (arith, v.present u ∙ ap is_present d)
      ]
      | inr c ↦ ground (arith, v.present q ∙ ap is_present c)
    ];
    busy = inr (r, put_self r active s.place);
  }
  arrived s (x ∷ xs) r key g v p a = record {
    alone = a;
    present = λ q.
        member-insert_by key q r (x ∷ xs)
        ∙ sym (is_present-put q r blocked s.place ∙ ground (arith, v.present q));
    single = λ q u e f. elim (put-cases r q blocked active s.place e) [
      | inl (_, c) ↦ absurd (blocked-active c)
      | inr c ↦ elim (put-cases r u blocked active s.place f) [
        | inl (_, d) ↦ absurd (blocked-active d)
        | inr d ↦ v.single q u c d
      ]
    ];
    busy = elim v.busy [
      | inl e ↦ ground (arith, e)
      | inr (u, e) ↦
          inr (u, put_other r u blocked active s.place e (λ c. absent-active (sym p ∙ c)))
    ];
  }

  pub arrive-Inv :
      (s : Queue) (xs : List ℕ) (r : ℕ) (key : ℕ → ℕ) (empty : Bool) (h : Nodes)
      → Inv l s xs
      → s.place r ≡ absent
      → member r (l.head ∷ l.tail ∷ []) ≡ false
      → Ends (λ fuel. enqueue fuel l key r s.nodes) (empty, h)
      → Inv l
          (record {
            nodes = h;
            direct = s.direct;
            place = put r (if empty then active else blocked) s.place;
          })
          (insert_by key r xs)
  arrive-Inv s xs r key empty h v p o (fuel, e) =
      let (g, c, a) =
        enqueue-Alone l (fuel + suc (length xs)) key r s.nodes xs v.alone
          (ground (arith, o, v.present r ∙ ap is_present p)) (omega arith) in
      subst
        (Returns (λ (b, n).
          Inv l
            (record {
              nodes = n;
              direct = s.direct;
              place = put r (if b then active else blocked) s.place;
            })
            (insert_by key r xs)))
        (sym c ∙ e (suc (length xs))) (arrived s xs r key g v p a)

  module _ (s : Queue) (xs : List ℕ) (v : Inv l s xs) (r : ℕ) (p : s.place r ≡ active) where
    idle : (q : ℕ) → put r absent s.place q ≢ active
    idle q e = elim (put-cases r q absent active s.place e) [
      | inl (_, c) ↦ absent-active c
      | inr c ↦
          absent-active
            (sym (ap (put r absent s.place) (v.single q r c p) ∙ put_self r absent s.place) ∙ e)
    ]

    left-present :
        (ws ys : List ℕ)
        → xs ≡ back ws (r ∷ ys)
        → member r (back ws ys) ≡ false
        → (q : ℕ) → member q (back ws ys) ≡ is_present (put r absent s.place q)
    left-present ws ys c m q = sym (
        is_present-put q r absent s.place ∙ elim (Bool-cases (q == r)) [
          | inl k ↦ rw k (sym (ap (λ t. member t (back ws ys)) ((==_iff q r).0 k) ∙ m))
          | inr k ↦ rw k (
              sym (v.present q)
              ∙ ap (member q) c
              ∙ ground (arith, k, member-back q ws (r ∷ ys), member-back q ws ys))
        ])

    served-Inv :
        (ws ys : List ℕ) (d : Direct) (g : Nodes)
        → xs ≡ back ws (r ∷ ys)
        → member r (back ws ys) ≡ false
        → Alone g l (back ws ys)
        → Inv l
            (record {
              nodes = g;
              direct = d;
              place = wake (neighbour s.direct ws ys).0 (put r absent s.place);
            })
            (back ws ys)
    served-Inv ws ys d g c m a = elim (next_left s.direct ws ys) [
      | inl (e, f, n) ↦ rw n (record {
        alone = a;
        present = left-present ws ys c m;
        single = λ q u k j. absurd (idle q k);
        busy = inl (ap (λ t. back t ys) e ∙ f);
      })
      | inr (u, n, b) ↦ rw n (record {
        alone = a;
        present = λ q. sym (
            is_present-put q u active (put r absent s.place) ∙ elim (Bool-cases (q == u)) [
              | inl k ↦ rw k (sym (ap (λ t. member t (back ws ys)) ((==_iff q u).0 k) ∙ b))
              | inr k ↦ rw k (sym (left-present ws ys c m q))
            ]);
        single = λ q t k j. elim (put-cases u q active active (put r absent s.place) k) [
          | inr i ↦ absurd (idle q i)
          | inl (i, _) ↦ elim (put-cases u t active active (put r absent s.place) j) [
            | inr i' ↦ absurd (idle t i')
            | inl (i', _) ↦ i ∙ sym i'
          ]
        ];
        busy = inr (u, put_self u active (put r absent s.place));
      })
    ]

    pub serve-Inv :
        (next : Option ℕ) (d : Direct) (h : Nodes)
        → dequeue s.direct l r s.nodes ≡ done ((next, d), h)
        → (zs : List ℕ) × Inv l
            (record { nodes = h; direct = d; place = wake next (put r absent s.place) })
            zs
    serve-Inv next d h e =
        let (ws, ys, c) = split-back r [] xs (v.present r ∙ ap is_present p) in
        let (g, f, a, m) =
          dequeue-Alone l s.direct ws r ys s.nodes (subst (Alone s.nodes l) c v.alone) in
        (
          back ws ys,
          subst
              (Returns (λ ((o, t), n).
                Inv l (record { nodes = n; direct = t; place = wake o (put r absent s.place) })
                  (back ws ys)))
              (sym f ∙ e) (served-Inv ws ys (neighbour s.direct ws ys).1 g c m a),
        )

  Reach-Inv : (l.head == l.tail) ≡ false → (s : Queue) → Reach l s → (xs : List ℕ) × Inv l s xs
  Reach-Inv n s begin = ([], start-Inv n)
  Reach-Inv n s (later {s = u} r (arrive q key empty h p o e)) =
      let (xs, v) = Reach-Inv n u r in (insert_by key q xs, arrive-Inv u xs q key empty h v p o e)
  Reach-Inv n s (later {s = u} r (serve q next d h p e)) =
      let (xs, v) = Reach-Inv n u r in serve-Inv u xs v q p next d h e

-- In every state reached from the start at most one request of the device is being served.
pub Reach-one :
    (l : ListT) (s : Queue) (q r : ℕ)
    → (l.head == l.tail) ≡ false
    → Reach l s
    → s.place q ≡ active
    → s.place r ≡ active
    → q ≡ r
Reach-one l s q r n k e f = (Reach-Inv l n s k).1.single q r e f

-- A task that waits in a state reached from the start waits for some request being served, and its turn
-- comes: when the queue is served to its end from that request on, its own request is among those served.
pub Reach-served :
    (l : ListT) (s : Queue) (r : ℕ)
    → (l.head == l.tail) ≡ false
    → Reach l s
    → s.place r ≡ blocked
    → (u : ℕ) × (rs : List ℕ) × (s.place u ≡ active)
      × Ends (λ fuel. drain fuel s.direct l u s.nodes) rs
      × (member r rs ≡ true)
Reach-served l s r n k p =
    let (xs, v) = Reach-Inv l n s k in
    elim v.busy [
      | inl e ↦ ground (arith, sym (ap (member r) e) ∙ v.present r ∙ ap is_present p)
      | inr (u, b) ↦
          let (ws, ys, c) = split-back u [] xs (v.present u ∙ ap is_present b) in
          (
            u,
            u ∷ sweep s.direct ws ys,
            b,
            (
              suc (length ws + length ys),
              λ i.
                  drain-sweep (suc (length ws + length ys) + i) s.direct l ws u ys s.nodes
                    (subst (Holds s.nodes l) c v.alone.holds) (omega arith),
            ),
            member-sweep s.direct r u ws ys (ap (member r) (sym c) ∙ v.present r ∙ ap is_present p),
          )
    ]
