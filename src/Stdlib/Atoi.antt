-- ===== src/Stdlib/Atoi.antt =====
-- `atoi` of lib/stdlib.c.
use os_store.Base.{
  ℕ, zero, suc, ◌+◌, ◌-◌, ◌*◌, ◌%◌, ◌^◌, ◌≡◌, ◌≢◌, ◌≤◌, ◌<◌, List, [], ◌∷◌, length, done, arith, ap,
  ◌∙◌,
}
use os_store.Base.Memory.{Memory, IsStr}
use os_store.Stdlib.{atoi_loop, atoi}

abbrev pub Digits : List ℕ → Type 0
Digits [] = Unit
Digits (c ∷ cs) = (b'0' ≤ c) × (c ≤ b'9') × Digits cs

-- the number that decimal digits write, behind `acc`
unfoldable pub decimal : ℕ → List ℕ → ℕ
decimal acc [] = acc
decimal acc (c ∷ cs) = decimal (acc * 10 + (c - b'0')) cs

decimal-mod :
    (acc n : ℕ) (cs : List ℕ)
    → acc % 2 ^ 32 ≡ n % 2 ^ 32
    → decimal acc cs % 2 ^ 32 ≡ decimal n cs % 2 ^ 32
unfolding decimal
decimal-mod acc n [] e = e
decimal-mod acc n (c ∷ cs) e =
    decimal-mod (acc * 10 + (c - b'0')) (n * 10 + (c - b'0')) cs (omega arith)

atoi_loop-decimal :
    (mem : Memory) (k p acc : ℕ) (cs : List ℕ)
    → IsStr mem p cs
    → Digits cs
    → length cs < k
    → acc < 2 ^ 32
    → atoi_loop mem k p acc ≡ done (decimal acc cs % 2 ^ 32)
unfolding atoi_loop decimal
atoi_loop-decimal mem zero p acc cs h d lt w = absurd (omega arith)
atoi_loop-decimal mem (suc k) p acc [] h d lt w =
    let e : acc % 2 ^ 32 ≡ acc = omega arith in ground (arith, e)
atoi_loop-decimal mem (suc k) p acc (c ∷ cs) h d lt w =
    step
    ∙ atoi_loop-decimal mem k (p + 1) next cs h.2 d.2 (omega arith) (omega arith)
    ∙ ap done (decimal-mod next (acc * 10 + (c - b'0')) cs (omega arith))
  where
    next : ℕ
    next = (acc * 10 + c + 2 ^ 32 - b'0') % 2 ^ 32

    step : atoi_loop mem (suc k) p acc ≡ atoi_loop mem k (p + 1) next
    step = ground (arith, h.0)

not_minus : (mem : Memory) (p : ℕ) (cs : List ℕ) → IsStr mem p cs → Digits cs → mem p ≢ b'-'
not_minus mem p [] h d = ground arith
not_minus mem p (c ∷ cs) h d = ground (arith, h.0, d.0)

-- `atoi` of decimal digits returns their number modulo `2 ^ 32`, given more fuel than digits. A minus
-- sign before them changes nothing: the number comes out positive.
pub atoi-decimal :
    (mem : Memory) (fuel p : ℕ) (cs : List ℕ)
    → Digits cs
    → length cs + 1 < fuel
    → 0 < p
    → (IsStr mem p cs → atoi mem fuel p ≡ done (decimal 0 cs % 2 ^ 32))
      × (IsStr mem p (b'-' ∷ cs) → atoi mem fuel p ≡ done (decimal 0 cs % 2 ^ 32))
unfolding atoi
atoi-decimal mem fuel p cs d lt pos = (
  (λ h. ground (arith, not_minus mem p cs h d, atoi_loop-decimal mem fuel p 0 cs h d)),
  λ h. ground (arith, h.0, atoi_loop-decimal mem fuel (p + 1) 0 cs h.2 d),
)
