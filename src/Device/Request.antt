-- ===== src/Device/Request.antt =====
-- device_request from where the request's turn has come: whom it wakes.
use os_store.Base.{
  ℕ, ◌≡◌, refl, Bool, true, ◌⊎◌, inl, inr, Option, none, some, List, [], ◌∷◌, get_elem?, set, done,
  load, store,
}
use os_store.NodeList.Chain.{member, Holds}
use os_store.Device.{Direct, DeviceT, Io, do_request, request_end}
use os_store.Device.Elevator.{back, neighbour, dequeue-Holds}
use os_store.Device.Moves.{next_left}

module _ {W : Type 0} (is_task : ℕ → Bool) (i r : ℕ) (s : Io W) where
  -- the request `n` has a task
  abbrev pub Waits : ℕ → Type 0
  Waits n = (t : ℕ) × ((s.requests n).task ≡ some t) × (is_task t ≡ true)

  -- the task that is woken is that of the request next to `r` in the direction of the elevator, if any is left
  abbrev pub Wakes : Direct → List ℕ → List ℕ → Option ℕ → Type 0
  Wakes d xs ys woken =
      ((xs ≡ []) × (ys ≡ []) × (woken ≡ none))
      ⊎ ((n : ℕ) × (t : ℕ) × ((neighbour d xs ys).0 ≡ some n)
          × ((s.requests n).task ≡ some t)
          × (woken ≡ some t))

  -- The second half of `device_request` for a queued request `r`, where the driver returns and the other
  -- requests in the queue have tasks, returns: the request leaves the queue, and the task of the next request
  -- in the elevator's direction is woken, unless no request is left.
  pub request_end-Wakes :
      (d : DeviceT W) (w : W) (xs ys : List ℕ)
      → do_request (s.requests r) s.devices s.world ≡ done w
      → get_elem? s.devices i ≡ some d
      → Holds s.nodes d.request_list (back xs (r ∷ ys))
      → ((q : ℕ) → member q (back xs ys) ≡ true → Waits q)
      → (woken : Option ℕ) × (after : Io W) × (request_end is_task i r s ≡ done (woken, after))
        × Holds after.nodes d.request_list (back xs ys)
        × Wakes d.direct xs ys woken
  unfolding request_end
  request_end-Wakes d w xs ys e f v o =
      let (g, c, h, n, p, sp) = dequeue-Holds s.nodes d.request_list d.direct xs r ys v in
      let after : Io W = record {
        devices = set s.devices i (record d { direct = (neighbour d.direct xs ys).1 });
        nodes = g;
        requests = s.requests;
        world = w;
      } in
      elim (next_left d.direct xs ys) [
        | inl (a, b, k) ↦
            (none, after, rw (request_end, e, load, f, c, store, k), h, inl (a, b, refl))
        | inr (q, k, m) ↦
            let (t, j, y) = o q m in
            (
              some t,
              after,
              rw (request_end, e, load, f, c, store, k, j, y),
              h,
              inr (q, t, k, j, refl),
            )
      ]
