-- ===== src/Cstring/Bounded.antt =====
-- `strncpy` of lib/string.c.
use os_store.Base.{
  ℕ, zero, suc, ◌+◌, ◌-◌, ◌≡◌, ◌≢◌, ◌≤◌, ◌<◌, refl, ap, ◌∙◌, true, false, List, [], ◌∷◌, ltb, leb,
  ◌&&◌, take, length, arith,
}
use os_store.Base.Memory.{Memory, write, IsStr}
use native.Mathlib.Decide.{dec_lt}
use os_store.Cstring.{copy_upto, strncpy}
use os_store.Cstring.Copy.{
  Apart, Copied, Copied-step, rest_survives, Copied-IsStr, Copied-at, at_zero, at_suc,
}

-- the loop of `strncpy` over a string of fewer than `left` characters, and over a longer one
copy_upto_step :
    (left ptr src : ℕ) (mem : Memory)
    → mem src ≢ 0
    → copy_upto (suc left) ptr src mem
      ≡ copy_upto left (ptr + 1) (src + 1) (write mem ptr (mem src))
unfolding copy_upto
copy_upto_step left ptr src mem ne = ground arith

short :
    (left dest src : ℕ) (mem : Memory) (cs : List ℕ)
    → IsStr mem src cs
    → length cs < left
    → Apart dest src (length cs + 1)
    → (g : Memory) × (copy_upto left dest src mem ≡ (true, g))
      × Copied mem dest src (length cs + 1) g
unfolding copy_upto
short zero dest src mem cs h lt apart = absurd (omega arith)
short (suc k) dest src mem [] h lt apart =
    let e : write mem dest (mem src) src ≡ 0 = ground arith in
    (write mem dest (mem src), ground (arith, e), λ a. ground arith)
short (suc k) dest src mem (c ∷ cs) h lt apart =
    let (g, run, r) =
      short k (dest + 1) (src + 1) (write mem dest (mem src)) cs
        (rest_survives mem dest src (mem src) cs (ground arith) h.2) (omega arith) (ground arith) in
    (
      g,
      copy_upto_step k dest src mem (ground arith) ∙ run,
      λ a. ground (arith, Copied-step mem dest src (length cs + 1) g (ground arith) r a),
    )

long :
    (left dest src : ℕ) (mem : Memory) (cs : List ℕ)
    → IsStr mem src cs
    → left ≤ length cs
    → Apart dest src (length cs + 1)
    → (g : Memory) × (copy_upto left dest src mem ≡ (false, g)) × Copied mem dest src left g
unfolding copy_upto
long zero dest src mem cs h lt apart = (mem, refl, λ a. ground arith)
long (suc k) dest src mem [] h lt apart = absurd (omega arith)
long (suc k) dest src mem (c ∷ cs) h lt apart =
    let (g, run, r) =
      long k (dest + 1) (src + 1) (write mem dest (mem src)) cs
        (rest_survives mem dest src (mem src) cs (ground arith) h.2) (omega arith) (ground arith) in
    (
      g,
      copy_upto_step k dest src mem (ground arith) ∙ run,
      Copied-step mem dest src k g (ground arith) r,
    )

-- a cut copy of a string is a string, once a NUL stands behind it
cut-IsStr :
    (mem : Memory) (dest src n : ℕ) (cs : List ℕ) (g : Memory)
    → n ≤ length cs
    → ((i : ℕ) → i < n → g (dest + i) ≡ mem (src + i))
    → g (dest + n) ≡ 0
    → IsStr mem src cs
    → IsStr g dest (take n cs)
cut-IsStr mem dest src zero cs g le same nul h =
    let e : dest + 0 ≡ dest = omega arith in cc (ap g e, nul)
cut-IsStr mem dest src (suc n) [] g le same nul h = absurd (omega arith)
cut-IsStr mem dest src (suc n) (c ∷ cs) g le same nul h =
    let e : dest + suc n ≡ dest + 1 + n = omega arith in
    (
      ground (arith, at_zero dest src mem g (same 0 (omega arith))),
      h.1,
      cut-IsStr mem (dest + 1) (src + 1) n cs g (omega arith)
          (λ i lt. at_suc dest src i mem g (same (i + 1) (omega arith))) (cc (ap g e, nul)) h.2,
    )

take-all : (n : ℕ) (cs : List ℕ) → length cs ≤ n → take n cs ≡ cs
take-all zero [] h = refl
take-all zero (c ∷ cs) h = absurd (omega arith)
take-all (suc n) [] h = refl
take-all (suc n) (c ∷ cs) h = ap (λ t. c ∷ t) (take-all n cs (omega arith))

-- `strncpy` of a string into room for `count` bytes, at least one, that does not overlap it: `dest`
-- then holds the string cut to `count - 1` characters, always with its NUL, and nothing outside the
-- `count` bytes has changed.
pub strncpy_lem :
    (dest src count : ℕ) (mem : Memory) (cs : List ℕ)
    → IsStr mem src cs
    → 0 < count
    → Apart dest src (length cs + 1)
    → IsStr (strncpy dest src count mem) dest (take (count - 1) cs)
      × ((a : ℕ)
          → (leb dest a && ltb a (dest + count)) ≡ false
          → strncpy dest src count mem a ≡ mem a)
unfolding strncpy
strncpy_lem dest src count mem cs h pos apart = elim (dec_lt (length cs) count) [
  | yes fits ↦
      let (g, run, r) = short count dest src mem cs h fits apart in
      rw (run, take-all (count - 1) cs (omega arith))
        (
          Copied-IsStr mem dest src cs g (Copied-at mem dest src (length cs + 1) g r) h,
          λ a out. ground (arith, r a),
        )
  | no long_string ↦
      let (g, run, r) = long count dest src mem cs h (omega arith) apart in
      rw run (
        cut-IsStr mem dest src (count - 1) cs (write g (dest + count - 1) 0) (omega arith)
            (λ i lt. ground (arith, Copied-at mem dest src count g r i)) (ground arith) h,
        λ a out. ground (arith, r a),
      )
]
