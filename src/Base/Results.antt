-- ===== src/Base/Results.antt =====
-- What a call of kernel code does: it returns, or it stops the machine.
use Prim.Native.Nat.{ℕ}
use mathlib.Core.Path.{◌≡◌, refl}
use mathlib.Core.Bool.{Bool, true, false}
use mathlib.Core.List.{List}
use mathlib.Core.Option.{none, some}
use os_store.Base.Lists.{get_elem?, set}

-- `panic` is a failed `assert` or a call of `panic` (both hang the kernel, kernel/assert.c), `fault`
-- an access outside an array, which C leaves undefined, and `hung` a loop that used up its fuel.
pub data Outcome {ℓ} (A : Type ℓ) : Type ℓ where
  done : A → Outcome A
  panic : Outcome A
  fault : Outcome A
  hung : Outcome A

infixl 5 ◌>>=◌ ◌>>◌
abbrev pub ◌>>=◌ {ℓ κ} : {A : Type ℓ} {B : Type κ} → Outcome A → (A → Outcome B) → Outcome B
done a >>= f = f a
panic >>= f = panic
fault >>= f = fault
hung >>= f = hung

abbrev pub ◌>>◌ {ℓ} : {B : Type ℓ} → Outcome (Unit {0}) → Outcome B → Outcome B
m >> k = m >>= λ _. k

-- the call returns, and what it returns satisfies `P`
abbrev pub Returns {ℓ} : {A : Type ℓ} → (A → Type 0) → Outcome A → Type 0
Returns P (done x) = P x
Returns P _ = ⊥

-- `assert(b)`
abbrev pub assert : Bool → Outcome (Unit {0})
assert true = done tt
assert false = panic

-- `array[i]`
abbrev pub load {ℓ} : {A : Type ℓ} → List A → ℕ → Outcome A
load xs i = elim (get_elem? xs i) [ none ↦ fault | some x ↦ done x ]

-- `array[i] = v`
abbrev pub store {ℓ} : {A : Type ℓ} → List A → ℕ → A → Outcome (List A)
store xs i v = elim (get_elem? xs i) [ none ↦ fault | some _ ↦ done (set xs i v) ]

-- if the call returns, what it returns satisfies `P`
abbrev pub Ensures {ℓ} : {A : Type ℓ} → (A → Type 0) → Outcome A → Type 0
Ensures P (done x) = P x
Ensures P _ = Unit {0}

-- the call may do anything
pub Ensures-any {ℓ} : {A : Type ℓ} (o : Outcome A) → Ensures (λ _. Unit {0}) o
Ensures-any (done x) = tt
Ensures-any panic = tt
Ensures-any fault = tt
Ensures-any hung = tt

pub Ensures-bind {ℓ κ} :
    {A : Type ℓ} {B : Type κ} (P : A → Type 0) (Q : B → Type 0) (o : Outcome A) (f : A → Outcome B)
    → Ensures P o
    → ((a : A) → P a → Ensures Q (f a))
    → Ensures Q (o >>= f)
Ensures-bind P Q (done a) f h g = g a h
Ensures-bind P Q panic f h g = tt
Ensures-bind P Q fault f h g = tt
Ensures-bind P Q hung f h g = tt

-- what stands behind `assert` holds where it is true
pub Ensures-assert {ℓ} :
    {A : Type ℓ} (Q : A → Type 0) (b : Bool) (o : Outcome A)
    → (b ≡ true → Ensures Q o)
    → Ensures Q (assert b >> o)
Ensures-assert Q true o f = f refl
Ensures-assert Q false o f = tt
