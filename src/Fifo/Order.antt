-- ===== src/Fifo/Order.antt =====
-- What a client sees of lib/fifo.c: the bytes from `tail` round to `head`, oldest first.
use os_store.Base.{
  ℕ, zero, suc, ◌+◌, ◌-◌, ◌%◌, ◌^◌, ◌≤◌, ◌<◌, ◌≡◌, ◌≢◌, refl, true, false, List, [], ◌∷◌, ◌++◌, leb,
  ◌==◌, if◌then◌else◌, length, get_or, set, drop, length-set, get_or-set_self, get_or-set_ne,
  Outcome, done, panic, ◌>>=◌, arith, Bool-cases, ==_iff, ==_of_ne, inl, inr, ◌∙◌, sym,
}
use mathlib.Core.Path.{ap₂, ap}
use native.Mathlib.Nat.{mod-eq_of_lt, mod_self}
use os_store.Fifo.{Fifo, fifo_full, fifo_next, fifo_get, fifo_put, drop_while_full}

pub record IsValid (fifo : Fifo) : Type 0 where
  pub fits : fifo.length ≤ length fifo.buf
  pub room : 1 < fifo.length
  pub word : fifo.length < 2 ^ 32
  pub head_in : fifo.head < fifo.length
  pub tail_in : fifo.tail < fifo.length

-- the slot behind `i`, without a remainder
abbrev next_slot : ℕ → ℕ → ℕ
next_slot len i = if suc i == len then 0 else suc i

-- how many slots lie from `i` on before `j`
abbrev distance : ℕ → ℕ → ℕ → ℕ
distance len i j = if leb i j then j - i else j + len - i

-- `n` bytes from slot `i` on
unfoldable pub stored : List ℕ → ℕ → ℕ → ℕ → List ℕ
stored buf len i zero = []
stored buf len i (suc n) = get_or buf i 0 ∷ stored buf len (next_slot len i) n

abbrev pub count : Fifo → ℕ
count fifo = distance fifo.length fifo.tail fifo.head

abbrev pub contents : Fifo → List ℕ
contents fifo = stored fifo.buf fifo.length fifo.tail (count fifo)

wrap : (k n : ℕ) → n < 2 ^ 32 → k ≡ n → k % 2 ^ 32 % n ≡ 0
wrap k n w e = rw (mod-eq_of_lt {n = k} {m = 2 ^ 32} (omega arith), e, mod_self n)

stay : (k n : ℕ) → n < 2 ^ 32 → k < n → k % 2 ^ 32 % n ≡ k
stay k n w h = rw (mod-eq_of_lt {n = k} {m = 2 ^ 32} (omega arith), mod-eq_of_lt h)

pub fifo_next-eq :
    (fifo : Fifo) (i : ℕ)
    → fifo.length < 2 ^ 32
    → i < fifo.length
    → fifo_next fifo i ≡ next_slot fifo.length i
fifo_next-eq fifo i w h = elim (Bool-cases (suc i == fifo.length)) [
  | inl e ↦ rw e (wrap (i + 1) fifo.length w (omega (arith, (==_iff (suc i) fifo.length).0 e)))
  | inr n ↦ rw n (stay (i + 1) fifo.length w (ground arith) ∙ omega arith)
]

length-stored : (buf : List ℕ) (len i n : ℕ) → length (stored buf len i n) ≡ n
unfolding stored
length-stored buf len i zero = refl
length-stored buf len i (suc n) = ap suc (length-stored buf len (next_slot len i) n)

-- a byte written behind the stored ones joins them
stored-set :
    (buf : List ℕ) (len x i j n : ℕ)
    → len ≤ length buf
    → i < len
    → j < len
    → distance len i j ≡ n
    → stored (set buf j x) len i (suc n) ≡ stored buf len i n ++ x ∷ []
unfolding stored
stored-set buf len x i j zero fits hi hj e = ground (arith, get_or-set_self buf j x 0)
stored-set buf len x i j (suc n) fits hi hj e =
    ap₂ ◌∷◌ (get_or-set_ne buf j i x 0 (ground arith))
      (stored-set buf len x (next_slot len i) j n fits (ground arith) hj (ground arith))

abbrev behind : Fifo → Fifo
behind fifo = record fifo { tail = fifo_next fifo fifo.tail }

behind-IsValid : {fifo : Fifo} → IsValid fifo → IsValid (behind fifo)
behind-IsValid {fifo} v = ground (arith, fifo_next-eq fifo fifo.tail)

count-behind :
    {fifo : Fifo} → IsValid fifo → fifo.head ≢ fifo.tail → count fifo ≡ suc (count (behind fifo))
count-behind {fifo} v ne = ground (arith, fifo_next-eq fifo fifo.tail)

contents_empty : (fifo : Fifo) → fifo.head ≡ fifo.tail → contents fifo ≡ []
unfolding stored
contents_empty fifo e = let z : count fifo ≡ 0 = ground arith in rw z

contents-behind :
    {fifo : Fifo}
    → IsValid fifo
    → fifo.head ≢ fifo.tail
    → contents fifo ≡ get_or fifo.buf fifo.tail 0 ∷ contents (behind fifo)
unfolding stored
contents-behind {fifo} v ne =
    ap (stored fifo.buf fifo.length fifo.tail) (count-behind v ne)
    ∙ ap (λ i. get_or fifo.buf fifo.tail 0 ∷ stored fifo.buf fifo.length i (count (behind fifo)))
        (sym (fifo_next-eq fifo fifo.tail v.word v.tail_in))

-- The queue that the functions implement: a get wants a byte, and a put into a queue of
-- `size - 1` bytes drops the oldest.
unfoldable pub queue_get : List ℕ → Outcome (ℕ × List ℕ)
queue_get [] = panic
queue_get (x ∷ q) = done (x, q)

unfoldable pub queue_put : ℕ → List ℕ → ℕ → List ℕ
queue_put size q byte = (if suc (length q) == size then drop 1 q else q) ++ byte ∷ []

pub not_empty_of_cons :
    (fifo : Fifo) (x : ℕ) (q : List ℕ) → contents fifo ≡ x ∷ q → (fifo.head == fifo.tail) ≡ false
not_empty_of_cons fifo x q c = ==_of_ne fifo.head fifo.tail (λ e. cc (contents_empty fifo e, c))

-- what a call of `fifo_get` does
pub data Got (fifo : Fifo) : Type 0 where
  nothing : fifo_get fifo ≡ panic → contents fifo ≡ [] → Got fifo
  oldest :
      (x : ℕ) (f : Fifo)
      → fifo_get fifo ≡ done (x, f)
      → IsValid f
      → f.length ≡ fifo.length
      → contents fifo ≡ x ∷ contents f
      → Got fifo

pub fifo_get-Got : {fifo : Fifo} → IsValid fifo → Got fifo
unfolding fifo_get
fifo_get-Got {fifo} v = elim (Bool-cases (fifo.head == fifo.tail)) [
  | inl e ↦ nothing (rw e) (contents_empty fifo ((==_iff fifo.head fifo.tail).0 e))
  | inr n ↦
      oldest (get_or fifo.buf fifo.tail 0) (behind fifo) (rw n) (behind-IsValid v) refl
        (contents-behind v (ground arith))
]

-- `fifo_get` of a valid queue takes the oldest byte and leaves the rest, and fails its assertion
-- when there is none.
pub fifo_get_lem :
    (fifo : Fifo)
    → IsValid fifo
    → (fifo_get fifo >>= λ (x, f). done (x, contents f)) ≡ queue_get (contents fifo)
unfolding queue_get
fifo_get_lem fifo v = elim (fifo_get-Got v) [
  | nothing e c ↦ rw (e, c)
  | oldest x f e v' n c ↦ rw (e, c)
]

not_empty_of_full :
    {fifo : Fifo} → IsValid fifo → fifo_full fifo ≡ true → (fifo.head == fifo.tail) ≡ false
not_empty_of_full {fifo} v h = ground (arith, fifo_next-eq fifo fifo.head)

length_contents : (fifo : Fifo) → length (contents fifo) ≡ count fifo
length_contents fifo = length-stored fifo.buf fifo.length fifo.tail (count fifo)

count-full :
    {fifo : Fifo} → IsValid fifo → fifo_full fifo ≡ true → (suc (count fifo) == fifo.length) ≡ true
count-full {fifo} v h = ground (arith, fifo_next-eq fifo fifo.head)

count-not_full :
    {fifo : Fifo}
    → IsValid fifo
    → fifo_full fifo ≡ false
    → (suc (count fifo) == fifo.length) ≡ false
count-not_full {fifo} v h = ground (arith, fifo_next-eq fifo fifo.head)

behind_not_full :
    {fifo : Fifo} → IsValid fifo → fifo_full fifo ≡ true → fifo_full (behind fifo) ≡ false
behind_not_full {fifo} v h =
    ground (arith, fifo_next-eq fifo fifo.tail, fifo_next-eq fifo fifo.head)

-- what is written at the head of a queue with room
abbrev write_head : Fifo → ℕ → Fifo
write_head fifo byte = record fifo {
  buf = set fifo.buf fifo.head byte;
  head = fifo_next fifo fifo.head;
}

module _ {fifo : Fifo} (byte : ℕ) (v : IsValid fifo) (room : fifo_full fifo ≡ false) where
  write_head-IsValid : IsValid (write_head fifo byte)
  write_head-IsValid =
      ground (arith, fifo_next-eq fifo fifo.head, length-set fifo.buf fifo.head byte)

  count-write_head : count (write_head fifo byte) ≡ suc (count fifo)
  count-write_head = ground (arith, fifo_next-eq fifo fifo.head)

  contents-write_head : contents (write_head fifo byte) ≡ contents fifo ++ byte ∷ []
  contents-write_head = rw count-write_head (
      stored-set fifo.buf fifo.length byte fifo.tail fifo.head (count fifo) v.fits v.tail_in
        v.head_in refl)

drop_while_full-done :
    {fifo : Fifo}
    → IsValid fifo
    → drop_while_full 2 fifo ≡ done (if fifo_full fifo then behind fifo else fifo)
unfolding drop_while_full fifo_get
drop_while_full-done {fifo} v = ground (arith, not_empty_of_full v, behind_not_full v)

-- the queue after the loop of `fifo_put`
abbrev made_room : Fifo → Fifo
made_room fifo = if fifo_full fifo then behind fifo else fifo

record HasRoom (fifo f : Fifo) : Type 0 where
  valid : IsValid f
  free : fifo_full f ≡ false
  size : f.length ≡ fifo.length
  kept : contents f ≡ (
      if suc (length (contents fifo)) == fifo.length then drop 1 (contents fifo) else contents fifo)

made_room-HasRoom : {fifo : Fifo} → IsValid fifo → HasRoom fifo (made_room fifo)
made_room-HasRoom {fifo} v = elim (Bool-cases (fifo_full fifo)) [
  | inl f ↦ rw f (record {
    valid = behind-IsValid v;
    free = behind_not_full v f;
    size = refl;
    kept = rw (
      length_contents fifo,
      count-full v f,
      contents-behind v (ground (arith, not_empty_of_full v f)),
    );
  })
  | inr n ↦ rw n (record {
    valid = v;
    free = n;
    size = refl;
    kept = rw (length_contents fifo, count-not_full v n);
  })
]

-- `fifo_put` on a valid queue returns (its loop ends), keeps the queue valid and its length, and
-- leaves the bytes of `queue_put`: the new byte comes last, and the oldest goes if there is no room.
pub fifo_put_lem :
    (fifo : Fifo) (byte : ℕ)
    → IsValid fifo
    → (f : Fifo) × (fifo_put fifo byte ≡ done f)
      × IsValid f
      × (f.length ≡ fifo.length)
      × (contents f ≡ queue_put fifo.length (contents fifo) byte)
unfolding fifo_put queue_put
fifo_put_lem fifo byte v =
    let r = made_room-HasRoom v in
    (
      write_head (made_room fifo) byte,
      rw (drop_while_full-done v),
      write_head-IsValid byte r.valid r.free,
      r.size,
      contents-write_head byte r.valid r.free ∙ ap (λ q. q ++ byte ∷ []) r.kept,
    )
