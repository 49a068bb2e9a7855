-- ===== src/NodeList.antt =====
-- lib/list.c and include/onix/list.h: doubly linked lists between two nodes of the list's own. A node is
-- its address, and the `prev` and `next` fields of all nodes are the state.
pub mod Chain
pub mod Splice
pub mod Edit
pub mod Walk
pub mod Order
pub mod Calls
pub mod Run
mod Tests
use os_store.Base.{
  ℕ, zero, suc, ◌+◌, ◌%◌, ◌^◌, Bool, true, false, not, Option, none, some, List, ltb, ◌==◌,
  if◌then◌else◌, Outcome, done, panic, fault, hung, ◌>>=◌, ◌>>◌, assert,
}
use os_store.Base.Int.{int_lt}

-- `none` is `NULL`
pub record Nodes : Type 0 where
  pub prev : ℕ → Option ℕ
  pub next : ℕ → Option ℕ

-- a `list_t`: the addresses of its two nodes
pub record ListT : Type 0 where
  pub head : ℕ
  pub tail : ℕ

abbrev pub set_prev : ℕ → Option ℕ → Nodes → Nodes
set_prev p v h = record h { prev = λ q. if q == p then v else h.prev q }

abbrev pub set_next : ℕ → Option ℕ → Nodes → Nodes
set_next p v h = record h { next = λ q. if q == p then v else h.next q }

-- a pointer that is followed
abbrev pub deref : Option ℕ → Outcome ℕ
deref none = fault
deref (some p) = done p

abbrev pub is_null : Option ℕ → Bool
is_null none = true
is_null (some _) = false

-- `p == q` for a pointer that may be `NULL`
abbrev pub points_to : Option ℕ → ℕ → Bool
points_to none q = false
points_to (some p) q = p == q

unfoldable pub list_init : ListT → Nodes → Nodes
list_init l h =
    set_prev l.tail (some l.head)
      (set_next l.head (some l.tail) (set_next l.tail none (set_prev l.head none h)))

-- `anchor->prev` is read again after `node` is written, as the code does
unfoldable pub list_insert_before : (anchor node : ℕ) → Nodes → Outcome Nodes
list_insert_before anchor node h = do
  let h' = set_next node (some anchor) (set_prev node (h.prev anchor) h)
  p ← deref (h'.prev anchor)
  done (set_prev anchor (some node) (set_next p (some node) h'))

unfoldable pub list_insert_after : (anchor node : ℕ) → Nodes → Outcome Nodes
list_insert_after anchor node h = do
  let h' = set_next node (h.next anchor) (set_prev node (some anchor) h)
  n ← deref (h'.next anchor)
  done (set_next anchor (some node) (set_prev n (some node) h'))

-- the loop of `list_search`, on fuel
unfoldable pub search_loop : ℕ → (tail node : ℕ) → Option ℕ → Nodes → Outcome Bool
search_loop zero tail node next h = hung
search_loop (suc k) tail node next h = elim (points_to next tail) [
  | true ↦ done false
  | false ↦ elim (points_to next node) [
    | true ↦ done true
    | false ↦ deref next >>= λ n. search_loop k tail node (h.next n) h
  ]
]

unfoldable pub list_search : ℕ → ListT → ℕ → Nodes → Outcome Bool
unfolding search_loop
list_search fuel l node h = search_loop fuel l.tail node (h.next l.head) h

unfoldable pub list_remove : ℕ → Nodes → Outcome Nodes
list_remove node h = do
  assert (not (is_null (h.prev node)))
  assert (not (is_null (h.next node)))
  p ← deref (h.prev node)
  let h1 = set_next p (h.next node) h
  n ← deref (h1.next node)
  let h2 = set_prev n (h1.prev node) h1
  done (set_prev node none (set_next node none h2))

unfoldable pub list_empty : ListT → Nodes → Bool
list_empty l h = points_to (h.next l.head) l.tail

unfoldable pub list_push : ℕ → ListT → ℕ → Nodes → Outcome Nodes
unfolding list_search list_insert_after
list_push fuel l node h = do
  there ← list_search fuel l node h
  assert (not there)
  list_insert_after l.head node h

unfoldable pub list_pop : ListT → Nodes → Outcome (ℕ × Nodes)
unfolding list_empty list_remove
list_pop l h = do
  assert (not (list_empty l h))
  node ← deref (h.next l.head)
  h' ← list_remove node h
  done (node, h')

unfoldable pub list_pushback : ℕ → ListT → ℕ → Nodes → Outcome Nodes
unfolding list_search list_insert_before
list_pushback fuel l node h = do
  there ← list_search fuel l node h
  assert (not there)
  list_insert_before l.tail node h

-- `list_popback` returns nothing, though its type says a node
unfoldable pub list_popback : ListT → Nodes → Outcome Nodes
unfolding list_empty list_remove
list_popback l h = do
  assert (not (list_empty l h))
  node ← deref (h.prev l.tail)
  list_remove node h

unfoldable pub size_loop : ℕ → (tail : ℕ) → Option ℕ → (size : ℕ) → Nodes → Outcome ℕ
size_loop zero tail next size h = hung
size_loop (suc k) tail next size h = elim (points_to next tail) [
  | true ↦ done size
  | false ↦ deref next >>= λ n. size_loop k tail (h.next n) ((size + 1) % 2 ^ 32) h
]

unfoldable pub list_size : ℕ → ListT → Nodes → Outcome ℕ
unfolding size_loop
list_size fuel l h = size_loop fuel l.tail (h.next l.head) 0 h

-- the loop of `list_insert_sort`: the anchor. `key` is what stands at the offset from a node.
unfoldable pub anchor_loop :
    ℕ → (tail : ℕ) → (key : ℕ → ℕ) → (node : ℕ) → Option ℕ → Nodes → Outcome ℕ
anchor_loop zero tail key node ptr h = hung
anchor_loop (suc k) tail key node ptr h = elim (points_to ptr tail) [
  | true ↦ done tail
  | false ↦ deref ptr >>= λ p. elim (int_lt (key node) (key p)) [
    | true ↦ done p
    | false ↦ anchor_loop k tail key node (h.next p) h
  ]
]

unfoldable pub list_insert_sort : ℕ → ListT → (key : ℕ → ℕ) → (node : ℕ) → Nodes → Outcome Nodes
unfolding anchor_loop list_insert_before
list_insert_sort fuel l key node h = do
  anchor ← anchor_loop fuel l.tail key node (h.next l.head) h
  assert (is_null (h.next node))
  assert (is_null (h.prev node))
  list_insert_before anchor node h
