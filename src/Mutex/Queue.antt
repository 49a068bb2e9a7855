-- ===== src/Mutex/Queue.antt =====
-- The queue of a mutex: what is left when its oldest task is woken.
use os_store.Base.{ℕ, ◌≡◌, refl, false, ◌||◌, List, [], ◌∷◌, ◌==◌, arith}
use os_store.NodeList.Chain.{member, Distinct}
use os_store.NodeList.Splice.{last}
use os_store.Mutex.{but_last}

pub member-last :
    (q x : ℕ) (xs : List ℕ) → member q (x ∷ xs) ≡ (q == last x xs || member q (but_last x xs))
member-last q x [] = refl
member-last q x (y ∷ ys) = ground (arith, member-last q y ys)

pub last-not_member :
    (x : ℕ) (xs : List ℕ) → Distinct (x ∷ xs) → member (last x xs) (but_last x xs) ≡ false
last-not_member x [] d = refl
last-not_member x (y ∷ ys) (o, d) = ground (arith, o, member-last x y ys, last-not_member y ys d)

pub Distinct-but_last : (x : ℕ) (xs : List ℕ) → Distinct (x ∷ xs) → Distinct (but_last x xs)
Distinct-but_last x [] d = tt
Distinct-but_last x (y ∷ ys) (o, d) =
    (ground (arith, o, member-last x y ys), Distinct-but_last y ys d)
