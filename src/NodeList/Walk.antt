-- ===== src/NodeList/Walk.antt =====
-- The loops of lib/list.c over a list.
use os_store.Base.{
  ℕ, zero, suc, ◌+◌, ◌%◌, ◌^◌, ◌<◌, ◌≡◌, ap, ◌∙◌, true, false, List, [], ◌∷◌, length, arith, done,
}
use os_store.NodeList.{Nodes, ListT, search_loop, list_search, size_loop, list_size, list_empty}
use os_store.NodeList.Chain.{member, Links, Holds}

module _ (h : Nodes) (b : ℕ) where
  search_loop-member :
      (k a : ℕ) (ys : List ℕ) (node : ℕ)
      → length ys < k
      → member b ys ≡ false
      → Links h a ys b
      → search_loop k b node (h.next a) h ≡ done (member node ys)
  unfolding search_loop
  search_loop-member zero a ys node f o l = absurd (omega arith)
  search_loop-member (suc k) a [] node f o (e, _) = ground (arith, e)
  search_loop-member (suc k) a (y ∷ ys) node f o (e, _, l) =
      ground (arith, e, o, search_loop-member k y ys node (omega arith) (ground (arith, o)) l)

  size_loop-length :
      (k a : ℕ) (ys : List ℕ) (size : ℕ)
      → length ys < k
      → size + length ys < 2 ^ 32
      → member b ys ≡ false
      → Links h a ys b
      → size_loop k b (h.next a) size h ≡ done (size + length ys)
  unfolding size_loop
  size_loop-length zero a ys size f w o l = absurd (omega arith)
  size_loop-length (suc k) a [] size f w o (e, _) = ground (arith, e)
  size_loop-length (suc k) a (y ∷ ys) size f w o (e, _, l) =
      let m : (size + 1) % 2 ^ 32 ≡ size + 1 = omega arith in
      let n : size + 1 + length ys ≡ size + suc (length ys) = omega arith in
      ground (
        arith,
        e,
        o,
        m,
        n,
        size_loop-length k y ys (size + 1) (omega arith) (omega arith) (ground (arith, o)) l,
      )

module _ (h : Nodes) (l : ListT) (xs : List ℕ) (v : Holds h l xs) where
  -- `list_search` of a list returns, given more fuel than it has nodes: whether it holds the node.
  pub list_search-member :
      (fuel node : ℕ) → length xs < fuel → list_search fuel l node h ≡ done (member node xs)
  unfolding list_search
  list_search-member fuel node f =
      search_loop-member h l.tail fuel l.head xs node f v.distinct.1.0 v.links

  -- `list_size` counts the nodes.
  pub list_size-length :
      (fuel : ℕ) → length xs < fuel → length xs < 2 ^ 32 → list_size fuel l h ≡ done (length xs)
  unfolding list_size
  list_size-length fuel f w =
      size_loop-length h l.tail fuel l.head xs 0 f (omega arith) v.distinct.1.0 v.links
      ∙ ap done (omega arith)

pub list_empty-nil : (h : Nodes) (l : ListT) → Holds h l [] → list_empty l h ≡ true
unfolding list_empty
list_empty-nil h l v = ground (arith, v.links.0)

pub list_empty-cons :
    (h : Nodes) (l : ListT) (x : ℕ) (xs : List ℕ) → Holds h l (x ∷ xs) → list_empty l h ≡ false
unfolding list_empty
list_empty-cons h l x xs v = ground (arith, v.links.0, v.distinct.1.0)
