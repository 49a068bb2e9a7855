-- ===== src/Device/Turns.antt =====
-- Any number of tasks that call device_request for one block device, in any order: `enqueue` and `dequeue`
-- are what its two halves do to the list. A task and its request are one number here, that of the node.
use os_store.Base.{
  ℕ, ◌+◌, ◌≡◌, Bool, true, false, ◌⊎◌, Option, none, some, List, [], ◌∷◌, ◌==◌, if◌then◌else◌,
  Outcome, done,
}
use os_store.NodeList.{Nodes, ListT, list_init}
use os_store.NodeList.Chain.{member}
use os_store.NodeList.Calls.{Alone}
use os_store.Device.{Direct, direct_up, enqueue, dequeue}

-- Where a task stands with its request: it has none, it is blocked in the queue, or it is served or about to be.
pub data Place : Type 0 where
  absent : Place
  blocked : Place
  active : Place

abbrev pub is_present : Place → Bool
is_present absent = false
is_present _ = true

abbrev pub put : ℕ → Place → (ℕ → Place) → ℕ → Place
put r p f q = if q == r then p else f q

-- the task of the next request is woken
abbrev pub wake : Option ℕ → (ℕ → Place) → ℕ → Place
wake none f = f
wake (some n) f = put n active f

pub record Queue : Type 0 where
  pub nodes : Nodes
  pub direct : Direct
  pub place : ℕ → Place

-- A call ends with this result on some fuel and on all that is more.
abbrev pub Ends {ℓ} : {A : Type ℓ} → (ℕ → Outcome A) → A → Type ℓ
Ends f x = (fuel : ℕ) × ((k : ℕ) → f (fuel + k) ≡ done x)

module _ (l : ListT) where
  pub data Step (s : Queue) : Queue → Type 0 where
    arrive :
        (r : ℕ) (idx : ℕ → ℕ) (empty : Bool) (h : Nodes)
        → s.place r ≡ absent
        → member r (l.head ∷ l.tail ∷ []) ≡ false
        → Ends (λ fuel. enqueue fuel l idx r s.nodes) (empty, h)
        → Step s (record {
          nodes = h;
          direct = s.direct;
          place = put r (if empty then active else blocked) s.place;
        })
    serve :
        (r : ℕ) (next : Option ℕ) (d : Direct) (h : Nodes)
        → s.place r ≡ active
        → dequeue s.direct l r s.nodes ≡ done ((next, d), h)
        → Step s (record { nodes = h; direct = d; place = wake next (put r absent s.place) })

  abbrev pub start : Queue
  unfolding list_init
  start = record {
    nodes = list_init l (record { prev = λ _. none; next = λ _. none });
    direct = direct_up;
    place = λ _. absent;
  }

  pub data Reach : Queue → Type 0 where
    begin : Reach start
    later : {s u : Queue} → Reach s → Step s u → Reach u

  -- the list holds the requests that are there, and at most one of them is active, and one is if any is there
  pub record Inv (s : Queue) (xs : List ℕ) : Type 0 where
    pub alone : Alone s.nodes l xs
    pub present : (q : ℕ) → member q xs ≡ is_present (s.place q)
    pub single : (q r : ℕ) → s.place q ≡ active → s.place r ≡ active → q ≡ r
    pub busy : (xs ≡ []) ⊎ ((r : ℕ) × (s.place r ≡ active))
