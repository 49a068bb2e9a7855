-- ===== src/Base/Memory.antt =====
-- The bytes of memory, and the C strings in it.
use Prim.Native.Nat.{ℕ, ◌+◌, ◌-◌, ◌<◌, ◌≤◌, ◌^◌}
use mathlib.Core.Path.{◌≡◌}
use mathlib.Core.Logic.{◌≢◌}
use mathlib.Core.Bool.{true}
use mathlib.Core.List.{List, [], ◌∷◌}
use native.Mathlib.Omega.{arith}
use os_store.Base.Tests.{◌==◌, ltb, if◌then◌else◌}
use os_store.Base.Lists.{length}

-- a byte at each address
abbrev pub Memory : Type 0
Memory = ℕ → ℕ

abbrev pub write : Memory → ℕ → ℕ → Memory
write mem p v a = if a == p then v else mem a

-- the `int` that a `char` becomes, as 32 bits: `char` is signed
abbrev pub extend : ℕ → ℕ
extend c = if ltb c 128 then c else c + 2 ^ 32 - 256

-- at `p` stand the characters `cs`, none of them NUL, and then a NUL
abbrev pub IsStr : Memory → ℕ → List ℕ → Type 0
IsStr mem p [] = mem p ≡ 0
IsStr mem p (c ∷ cs) = (mem p ≡ c) × (c ≢ 0) × IsStr mem (p + 1) cs

-- at `p` stand the bytes `bs`
abbrev pub Holds : Memory → ℕ → List ℕ → Type 0
Holds mem p [] = Unit
Holds mem p (b ∷ bs) = (mem p ≡ b) × Holds mem (p + 1) bs

-- `g` agrees with `mem` outside the `n` bytes from `p` on
abbrev pub SameOutside : Memory → ℕ → ℕ → Memory → Type 0
SameOutside mem p n g = (a : ℕ) → (ltb a p ≡ true → g a ≡ mem a) × (p + n ≤ a → g a ≡ mem a)

-- a string is left alone by a change elsewhere
pub IsStr-same :
    (mem g : Memory) (p : ℕ) (cs : List ℕ)
    → ((a : ℕ) → p ≤ a → a < p + length cs + 1 → g a ≡ mem a)
    → IsStr mem p cs
    → IsStr g p cs
IsStr-same mem g p [] same h = ground (arith, same p)
IsStr-same mem g p (c ∷ cs) same h = (
  ground (arith, same p),
  h.1,
  IsStr-same mem g (p + 1) cs (λ a lo hi. same a (omega arith) (omega arith)) h.2,
)
