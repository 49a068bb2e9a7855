-- ===== src/Cstring.antt =====
-- lib/string.c: the C string functions over a flat memory. A loop that runs until a NUL takes fuel,
-- and is `hung` where that is used up; a pointer is an address, `none` a null pointer.
pub mod Length
pub mod Copy
pub mod Bounded
pub mod Compare
pub mod Search
mod Tests
use os_store.Base.{
  ℕ, zero, suc, ◌+◌, ◌-◌, ◌%◌, ◌^◌, Bool, true, false, ◌&&◌, Option, none, some, ltb, ◌==◌, ◌!=◌,
  if◌then◌else◌, Outcome, done, fault, hung, ◌>>=◌,
}
use os_store.Base.Memory.{Memory, write, extend}
use os_store.Base.Int.{ℤ, pos, negsuc}

-- the loop shared by `strlen` and the first half of `strcat`: the address of the NUL
pub end_loop : Memory → ℕ → ℕ → Outcome ℕ
end_loop mem zero ptr = hung
end_loop mem (suc k) ptr = elim (mem ptr == 0) [
  | true ↦ done ptr
  | false ↦ end_loop mem k (ptr + 1)
]

unfoldable pub strlen : Memory → ℕ → ℕ → Outcome ℕ
unfolding end_loop
strlen mem fuel str = end_loop mem fuel str >>= λ ptr. done (ptr - str)

-- the loop of `strcpy`: the test reads `*src` after `*ptr` has been written
pub copy_loop : ℕ → (ptr src : ℕ) → Memory → Outcome Memory
copy_loop zero ptr src mem = hung
copy_loop (suc k) ptr src mem =
    let mem' = write mem ptr (mem src) in
    elim (mem' src == 0) [ true ↦ done mem' | false ↦ copy_loop k (ptr + 1) (src + 1) mem' ]

unfoldable pub strcpy : ℕ → (dest src : ℕ) → Memory → Outcome Memory
unfolding copy_loop
strcpy fuel dest src mem = copy_loop fuel dest src mem

-- `true` says that the loop of `strncpy` returned at a NUL
pub copy_upto : ℕ → (ptr src : ℕ) → Memory → Bool × Memory
copy_upto zero ptr src mem = (false, mem)
copy_upto (suc left) ptr src mem =
    let mem' = write mem ptr (mem src) in
    elim (mem' src == 0) [ true ↦ (true, mem') | false ↦ copy_upto left (ptr + 1) (src + 1) mem' ]

unfoldable pub strncpy : (dest src count : ℕ) → Memory → Memory
unfolding copy_upto
strncpy dest src count mem =
    let (ended, mem') = copy_upto count dest src mem in
    if ended then mem' else write mem' (dest + count - 1) 0

unfoldable pub strcat : ℕ → (dest src : ℕ) → Memory → Outcome Memory
unfolding end_loop copy_loop
strcat fuel dest src mem = end_loop mem fuel dest >>= λ ptr. copy_loop fuel ptr src mem

-- `*lhs < *rhs`: `char` is signed
abbrev pub char_lt : ℕ → ℕ → Bool
char_lt a b = ltb ((a + 128) % 256) ((b + 128) % 256)

-- `*lhs < *rhs ? -1 : *lhs > *rhs`
abbrev pub order : ℕ → ℕ → ℤ
order a b = if char_lt a b then negsuc 0 else if char_lt b a then pos 1 else pos 0

pub strcmp_loop : Memory → ℕ → (lhs rhs : ℕ) → Outcome ℤ
strcmp_loop mem zero lhs rhs = hung
strcmp_loop mem (suc k) lhs rhs = elim (mem lhs == mem rhs && mem lhs != 0 && mem rhs != 0) [
  | true ↦ strcmp_loop mem k (lhs + 1) (rhs + 1)
  | false ↦ done (order (mem lhs) (mem rhs))
]

unfoldable pub strcmp : Memory → ℕ → (lhs rhs : ℕ) → Outcome ℤ
unfolding strcmp_loop
strcmp mem fuel lhs rhs = strcmp_loop mem fuel lhs rhs

pub strchr_loop : Memory → ℕ → ℕ → ℕ → Outcome (Option ℕ)
strchr_loop mem ch zero ptr = hung
strchr_loop mem ch (suc k) ptr = elim (extend (mem ptr) == ch) [
  | true ↦ done (some ptr)
  | false ↦ elim (mem ptr == 0) [ true ↦ done none | false ↦ strchr_loop mem ch k (ptr + 1) ]
]

unfoldable pub strchr : Memory → ℕ → (str ch : ℕ) → Outcome (Option ℕ)
unfolding strchr_loop
strchr mem fuel str ch = strchr_loop mem ch fuel str

pub strrchr_loop : Memory → ℕ → ℕ → ℕ → Option ℕ → Outcome (Option ℕ)
strrchr_loop mem ch zero ptr last = hung
strrchr_loop mem ch (suc k) ptr last =
    let last' = if extend (mem ptr) == ch then some ptr else last in
    elim (mem ptr == 0) [ true ↦ done last' | false ↦ strrchr_loop mem ch k (ptr + 1) last' ]

unfoldable pub strrchr : Memory → ℕ → (str ch : ℕ) → Outcome (Option ℕ)
unfolding strrchr_loop
strrchr mem fuel str ch = strrchr_loop mem ch fuel str none

-- `while ((count-- > 0) && *lptr == *rptr)`: `count` as the loop leaves it, and both pointers
pub memcmp_loop : Memory → (count lptr rptr : ℕ) → ℕ × ℕ × ℕ
memcmp_loop mem zero lptr rptr = (2 ^ 32 - 1, lptr, rptr)
memcmp_loop mem (suc count) lptr rptr = elim (mem lptr == mem rptr) [
  | true ↦ memcmp_loop mem count (lptr + 1) (rptr + 1)
  | false ↦ (count, lptr, rptr)
]

unfoldable pub memcmp : Memory → (lhs rhs count : ℕ) → ℤ
unfolding memcmp_loop
memcmp mem lhs rhs count =
    let (left, lptr, rptr) = memcmp_loop mem count lhs rhs in
    if left == 0 then pos 0 else order (mem lptr) (mem rptr)

-- the stored byte is `(char)ch`
unfoldable pub memset : (dest ch count : ℕ) → Memory → Memory
memset dest ch zero mem = mem
memset dest ch (suc count) mem = memset (dest + 1) ch count (write mem dest (ch % 256))

unfoldable pub memcpy : (dest src count : ℕ) → Memory → Memory
memcpy dest src zero mem = mem
memcpy dest src (suc count) mem = memcpy (dest + 1) (src + 1) count (write mem dest (mem src))

-- Where nothing is found the source runs off the end of a function that returns a pointer.
unfoldable pub memchr : Memory → (str ch count : ℕ) → Outcome ℕ
memchr mem str ch zero = fault
memchr mem str ch (suc count) = elim (extend (mem str) == ch) [
  | true ↦ done str
  | false ↦ memchr mem (str + 1) ch count
]
