-- ===== src/NodeList/Chain.antt =====
-- What the nodes of a list of lib/list.c stand for: a sequence.
use os_store.Base.{ℕ, ◌≡◌, Bool, true, false, ◌||◌, some, List, [], ◌∷◌, ◌==◌, arith}
use os_store.NodeList.{Nodes, ListT}

abbrev pub member : ℕ → List ℕ → Bool
member a [] = false
member a (x ∷ xs) = a == x || member a xs

abbrev pub Distinct : List ℕ → Type 0
Distinct [] = Unit
Distinct (x ∷ xs) = (member x xs ≡ false) × Distinct xs

-- from `a` the `next` pointers lead through `xs` to `b`, and the `prev` pointers back
abbrev pub Links : Nodes → ℕ → List ℕ → ℕ → Type 0
Links h a [] b = (h.next a ≡ some b) × (h.prev b ≡ some a)
Links h a (x ∷ xs) b = (h.next a ≡ some x) × (h.prev x ≡ some a) × Links h x xs b

-- the list `l` holds the sequence `xs`
pub record Holds (h : Nodes) (l : ListT) (xs : List ℕ) : Type 0 where
  pub links : Links h l.head xs l.tail
  pub distinct : Distinct (l.head ∷ l.tail ∷ xs)

-- links stay where neither the `next` of their nodes nor the `prev` behind them changes
pub Links-same :
    (h g : Nodes) (a : ℕ) (xs : List ℕ) (b : ℕ)
    → ((q : ℕ) → member q (a ∷ xs) ≡ true → g.next q ≡ h.next q)
    → ((q : ℕ) → member q (b ∷ xs) ≡ true → g.prev q ≡ h.prev q)
    → Links h a xs b
    → Links g a xs b
Links-same h g a [] b n p l = ground (arith, n a, p b)
Links-same h g a (x ∷ xs) b n p (e, f, l) = (
  ground (arith, n a, e),
  ground (arith, p x, f),
  Links-same h g x xs b (λ q m. n q (ground (arith, m))) (λ q m. p q (ground (arith, m))) l,
)
