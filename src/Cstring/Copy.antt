-- ===== src/Cstring/Copy.antt =====
-- The functions of lib/string.c that write: what each address holds afterwards.
use os_store.Base.{
  ℕ, zero, suc, ◌+◌, ◌-◌, ◌%◌, ◌≡◌, ◌≤◌, ◌<◌, ◌≢◌, ap, ◌∙◌, ◌⊎◌, ◌&&◌, List, [], ◌∷◌, leb, ltb,
  if◌then◌else◌, length, done, arith,
}
use os_store.Base.Memory.{Memory, write, IsStr, IsStr-same}
use os_store.Cstring.{copy_loop, strcpy, strcat, memset, memcpy}
use os_store.Cstring.Length.{end_loop-done}

-- `g` is `mem` with the `n` bytes at `src` copied to `dest`
abbrev pub Copied : Memory → (dest src n : ℕ) → Memory → Type 0
Copied mem dest src n g =
    (a : ℕ) → g a ≡ (if leb dest a && ltb a (dest + n) then mem (src + (a - dest)) else mem a)

-- `n` bytes at either place do not overlap
abbrev pub Apart : (dest src n : ℕ) → Type 0
Apart dest src n = (dest + n ≤ src) ⊎ (src + n ≤ dest)

pub Copied-step :
    (mem : Memory) (dest src n : ℕ) (g : Memory)
    → Apart dest src (suc n)
    → Copied (write mem dest (mem src)) (dest + 1) (src + 1) n g
    → Copied mem dest src (suc n) g
Copied-step mem dest src n g apart h a =
    let e : a ≢ dest → dest ≤ a → src + 1 + (a - (dest + 1)) ≡ src + (a - dest) =
      λ p q. omega arith in
    let f : src + (dest - dest) ≡ src = omega arith in ground (arith, h a, e, f)

-- `memcpy` between places that do not overlap copies exactly the `count` bytes.
pub memcpy-Copied :
    (dest src count : ℕ) (mem : Memory)
    → Apart dest src count
    → Copied mem dest src count (memcpy dest src count mem)
unfolding memcpy
memcpy-Copied dest src zero mem apart = λ a. ground arith
memcpy-Copied dest src (suc n) mem apart =
    Copied-step mem dest src n _ apart
      (memcpy-Copied (dest + 1) (src + 1) n (write mem dest (mem src)) (ground arith))

-- `memset` stores the low byte of `ch` in exactly the `count` bytes from `dest` on.
pub memset_lem :
    (dest ch count : ℕ) (mem : Memory) (a : ℕ)
    → memset dest ch count mem a ≡ (if leb dest a && ltb a (dest + count) then ch % 256 else mem a)
unfolding memset
memset_lem dest ch zero mem a = ground arith
memset_lem dest ch (suc n) mem a =
    ground (arith, memset_lem (dest + 1) ch n (write mem dest (ch % 256)) a)

-- what is still to be copied survives the first write
pub rest_survives :
    (mem : Memory) (dest src c : ℕ) (cs : List ℕ)
    → Apart dest src (length cs + 2)
    → IsStr mem (src + 1) cs
    → IsStr (write mem dest c) (src + 1) cs
rest_survives mem dest src c cs apart h =
    IsStr-same mem (write mem dest c) (src + 1) cs (λ a lo hi. ground arith) h

copy_step :
    (k dest src : ℕ) (mem : Memory)
    → mem src ≢ 0
    → copy_loop (suc k) dest src mem ≡ copy_loop k (dest + 1) (src + 1) (write mem dest (mem src))
unfolding copy_loop
copy_step k dest src mem ne = ground arith

copy_loop-Copied :
    (k dest src : ℕ) (mem : Memory) (cs : List ℕ)
    → IsStr mem src cs
    → length cs < k
    → Apart dest src (length cs + 1)
    → (g : Memory) × (copy_loop k dest src mem ≡ done g) × Copied mem dest src (length cs + 1) g
unfolding copy_loop
copy_loop-Copied zero dest src mem cs h lt apart = absurd (omega arith)
copy_loop-Copied (suc k) dest src mem [] h lt apart =
    let e : write mem dest (mem src) src ≡ 0 = ground arith in
    (write mem dest (mem src), ground (arith, e), λ a. ground arith)
copy_loop-Copied (suc k) dest src mem (c ∷ cs) h lt apart =
    let e : write mem dest (mem src) src ≡ c = ground arith in
    let (g, run, r) =
      copy_loop-Copied k (dest + 1) (src + 1) (write mem dest (mem src)) cs
        (rest_survives mem dest src (mem src) cs (ground arith) h.2) (omega arith) (ground arith) in
    (
      g,
      copy_step k dest src mem (ground arith) ∙ run,
      λ a. ground (arith, Copied-step mem dest src (length cs + 1) g (ground arith) r a),
    )

pub at_zero : (dest src : ℕ) (mem g : Memory) → g (dest + 0) ≡ mem (src + 0) → g dest ≡ mem src
at_zero dest src mem g h =
    let e : dest + 0 ≡ dest = omega arith in let f : src + 0 ≡ src = omega arith in cc (e, f, h)

pub at_suc :
    (dest src i : ℕ) (mem g : Memory)
    → g (dest + (i + 1)) ≡ mem (src + (i + 1))
    → g (dest + 1 + i) ≡ mem (src + 1 + i)
at_suc dest src i mem g h =
    let e : dest + (i + 1) ≡ dest + 1 + i = omega arith in
    let f : src + (i + 1) ≡ src + 1 + i = omega arith in cc (ap g e, ap mem f, h)

-- a copied string is a string
pub Copied-IsStr :
    (mem : Memory) (dest src : ℕ) (cs : List ℕ) (g : Memory)
    → ((i : ℕ) → i < length cs + 1 → g (dest + i) ≡ mem (src + i))
    → IsStr mem src cs
    → IsStr g dest cs
Copied-IsStr mem dest src [] g same h =
    ground (arith, at_zero dest src mem g (same 0 (omega arith)))
Copied-IsStr mem dest src (c ∷ cs) g same h = (
  ground (arith, at_zero dest src mem g (same 0 (omega arith))),
  h.1,
  Copied-IsStr mem (dest + 1) (src + 1) cs g
      (λ i lt. ground (arith, at_suc dest src i mem g (same (i + 1) (omega arith)))) h.2,
)

pub Copied-at :
    (mem : Memory) (dest src n : ℕ) (g : Memory)
    → Copied mem dest src n g
    → (i : ℕ) → i < n
    → g (dest + i) ≡ mem (src + i)
Copied-at mem dest src n g r i lt =
    let e : src + (dest + i - dest) ≡ src + i = omega arith in
    ground (arith, r (dest + i), ap mem e)

-- `strcpy` of a string to a place that does not overlap it returns, given more fuel than the string
-- has characters. The string then stands at `dest`, and only its bytes there have changed.
pub strcpy_lem :
    (fuel dest src : ℕ) (mem : Memory) (cs : List ℕ)
    → IsStr mem src cs
    → length cs < fuel
    → Apart dest src (length cs + 1)
    → (g : Memory) × (strcpy fuel dest src mem ≡ done g)
      × IsStr g dest cs
      × Copied mem dest src (length cs + 1) g
unfolding strcpy
strcpy_lem fuel dest src mem cs h lt apart =
    let (g, run, r) = copy_loop-Copied fuel dest src mem cs h lt apart in
    (g, run, Copied-IsStr mem dest src cs g (Copied-at mem dest src (length cs + 1) g r) h, r)

-- `strcat` of two strings returns, given enough fuel for both, where the second does not overlap the
-- place behind the first. The second then stands where the NUL of the first was, and only its bytes
-- there have changed.
pub strcat_lem :
    (fuel dest src : ℕ) (mem : Memory) (cs ds : List ℕ)
    → IsStr mem dest cs
    → IsStr mem src ds
    → length cs + length ds < fuel
    → Apart (dest + length cs) src (length ds + 1)
    → (g : Memory) × (strcat fuel dest src mem ≡ done g)
      × IsStr g (dest + length cs) ds
      × Copied mem (dest + length cs) src (length ds + 1) g
unfolding strcat
strcat_lem fuel dest src mem cs ds h g lt apart =
    let (m, run, r) = copy_loop-Copied fuel (dest + length cs) src mem ds g (omega arith) apart in
    (
      m,
      rw (end_loop-done mem fuel dest cs h (omega arith)) run,
      Copied-IsStr mem (dest + length cs) src ds m
          (Copied-at mem (dest + length cs) src (length ds + 1) m r) g,
      r,
    )
