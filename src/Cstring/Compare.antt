-- ===== src/Cstring/Compare.antt =====
-- `strcmp` and `memcmp` of lib/string.c.
use os_store.Base.{
  ℕ, zero, suc, ◌+◌, ◌-◌, ◌^◌, ◌≡◌, ◌≢◌, ◌<◌, ◌↔◌, ap, List, [], ◌∷◌, length, ◌==◌, if◌then◌else◌,
  done, arith,
}
use os_store.Base.Memory.{Memory, IsStr}
use os_store.Base.Int.{ℤ, pos}
use os_store.Cstring.{order, strcmp_loop, strcmp, memcmp_loop, memcmp}

-- how two strings compare: at their first difference, where the shorter one has its NUL
unfoldable pub compare_strings : List ℕ → List ℕ → ℤ
compare_strings [] [] = pos 0
compare_strings [] (d ∷ ds) = order 0 d
compare_strings (c ∷ cs) [] = order c 0
compare_strings (c ∷ cs) (d ∷ ds) = if c == d then compare_strings cs ds else order c d

order_self : (a : ℕ) → order a a ≡ pos 0
order_self a = ground arith

strcmp_loop-compare :
    (mem : Memory) (k p q : ℕ) (cs ds : List ℕ)
    → IsStr mem p cs
    → IsStr mem q ds
    → length cs < k
    → strcmp_loop mem k p q ≡ done (compare_strings cs ds)
unfolding strcmp_loop compare_strings
strcmp_loop-compare mem zero p q cs ds h g lt = absurd (omega arith)
strcmp_loop-compare mem (suc k) p q [] [] h g lt = ground arith
strcmp_loop-compare mem (suc k) p q [] (d ∷ ds) h g lt = ground arith
strcmp_loop-compare mem (suc k) p q (c ∷ cs) [] h g lt = ground arith
strcmp_loop-compare mem (suc k) p q (c ∷ cs) (d ∷ ds) h g lt =
    ground (arith, strcmp_loop-compare mem k (p + 1) (q + 1) cs ds)

-- `strcmp` of two strings returns, given more fuel than the first has characters: the sign of their
-- first difference.
pub strcmp-compare_strings :
    (mem : Memory) (fuel p q : ℕ) (cs ds : List ℕ)
    → IsStr mem p cs
    → IsStr mem q ds
    → length cs < fuel
    → strcmp mem fuel p q ≡ done (compare_strings cs ds)
unfolding strcmp
strcmp-compare_strings mem fuel p q cs ds h g lt = strcmp_loop-compare mem fuel p q cs ds h g lt

abbrev pub Chars : List ℕ → Type 0
Chars [] = Unit
Chars (c ∷ cs) = (c ≢ 0) × (c < 256) × Chars cs

-- Strings compare as 0 exactly when they are the same characters.
pub compare_strings-zero :
    (cs ds : List ℕ) → Chars cs → Chars ds → (compare_strings cs ds ≡ pos 0) ↔ (cs ≡ ds)
unfolding compare_strings
compare_strings-zero [] [] h g = ground arith
compare_strings-zero [] (d ∷ ds) h g = ground arith
compare_strings-zero (c ∷ cs) [] h g = ground arith
compare_strings-zero (c ∷ cs) (d ∷ ds) h g = ground (arith, compare_strings-zero cs ds h.2 g.2)

-- `memcmp` sees `i` equal bytes and then a difference, or `count` equal bytes.
abbrev pub SameBytes : Memory → ℕ → ℕ → ℕ → Type 0
SameBytes mem p q zero = Unit
SameBytes mem p q (suc n) = (mem p ≡ mem q) × SameBytes mem (p + 1) (q + 1) n

memcmp_loop-differs :
    (mem : Memory) (count i p q : ℕ)
    → i < count
    → SameBytes mem p q i
    → mem (p + i) ≢ mem (q + i)
    → memcmp_loop mem count p q ≡ (count - i - 1, p + i, q + i)
unfolding memcmp_loop
memcmp_loop-differs mem zero i p q lt same ne = absurd (omega arith)
memcmp_loop-differs mem (suc n) zero p q lt same ne =
    let e : p + 0 ≡ p = omega arith in
    let f : q + 0 ≡ q = omega arith in ground (arith, ap mem e, ap mem f)
memcmp_loop-differs mem (suc n) (suc i) p q lt same ne =
    let e : p + suc i ≡ p + 1 + i = omega arith in
    let f : q + suc i ≡ q + 1 + i = omega arith in
    ground (arith, memcmp_loop-differs mem n i (p + 1) (q + 1), ap mem e, ap mem f, e, f)

memcmp_loop-same :
    (mem : Memory) (count p q : ℕ)
    → SameBytes mem p q count
    → memcmp_loop mem count p q ≡ (2 ^ 32 - 1, p + count, q + count)
unfolding memcmp_loop
memcmp_loop-same mem zero p q same = ground arith
memcmp_loop-same mem (suc n) p q same = ground (arith, memcmp_loop-same mem n (p + 1) (q + 1))

-- What `memcmp` of `count` bytes returns, where `count` is an `int` or less. At a first difference
-- before the last byte it is the sign of the difference, as meant. A first difference in the last byte
-- is reported as equality, and for equal bytes the result depends on the bytes behind them.
pub memcmp_lem :
    (mem : Memory) (p q count : ℕ)
    → count < 2 ^ 31
    → ((i : ℕ)
        → i < count
        → SameBytes mem p q i
        → mem (p + i) ≢ mem (q + i)
        → memcmp mem p q count
          ≡ (if i + 1 == count then pos 0 else order (mem (p + i)) (mem (q + i))))
      × (SameBytes mem p q count → memcmp mem p q count ≡ order (mem (p + count)) (mem (q + count)))
unfolding memcmp
memcmp_lem mem p q count word = (
  (λ i lt same ne. rw (memcmp_loop-differs mem count i p q lt same ne) (ground arith)),
  λ same. rw (memcmp_loop-same mem count p q same),
)
