-- ===== src/Vsprintf.antt =====
-- lib/vsprintf.c: `number` and `skip_atoi`, on which vsprintf is built in Format. The string that
-- is written is the list of its characters.
pub mod Digits
pub mod Format
pub mod Spec
pub mod Scan
pub mod Print
pub mod Halts
mod Tests
mod FormatTests
use os_store.Base.{
  ℕ, zero, suc, ◌+◌, ◌-◌, ◌*◌, ◌/◌, ◌%◌, ◌^◌, max, bit_and, Bool, true, false, not, ◌&&◌, ◌||◌,
  Option, none, some, List, [], ◌∷◌, ◌++◌, ltb, leb, ◌==◌, ◌!=◌, if◌then◌else◌, length, replicate,
  Outcome, done, hung, ◌>>=◌,
}

abbrev pub zeropad : ℕ
zeropad = 1

abbrev pub plus : ℕ
plus = 4

abbrev pub space : ℕ
space = 8

abbrev pub left : ℕ
left = 16

abbrev pub special : ℕ
special = 32

abbrev pub small : ℕ
small = 64

-- `flags & bit`
abbrev pub has : ℕ → ℕ → Bool
has flags bit = bit_and flags bit != 0

-- `digits[index]` of the two digit strings
abbrev pub digit : Bool → ℕ → ℕ
digit lower index =
    if ltb index 10 then index + b'0' else index - 10 + (if lower then b'a' else b'A')

-- `while (num != 0)`: the characters put into `tmp`, the lowest digit first
unfoldable pub digits_loop : ℕ → Bool → (base num : ℕ) → Outcome (List ℕ)
digits_loop zero lower base num = hung
digits_loop (suc k) lower base num = elim (num == 0) [
  | true ↦ done []
  | false ↦ digits_loop k lower base (num / base) >>= λ tmp. done (digit lower (num % base) ∷ tmp)
]

-- `while (i-- > 0) *str++ = tmp[i]`
abbrev pub backwards : List ℕ → List ℕ
backwards [] = []
backwards (c ∷ tmp) = backwards tmp ++ c ∷ []

-- `sign`, where an `unsigned long` is never below 0
abbrev pub sign_of : ℕ → List ℕ
sign_of flags = if has flags plus then b'+' ∷ [] else if has flags space then b' ' ∷ [] else []

-- the characters of a special conversion; `digits[33]`
abbrev pub prefix : (base flags : ℕ) → List ℕ
prefix base flags =
    if has flags special
    then if base == 8
      then b'0' ∷ []
      else if base == 16
      then b'0' ∷ (if has flags small then b'x' else b'X') ∷ []
      else []
    else []

-- What `number` writes with the sign, the prefix and the digits in `tmp`. A negative `size` or `precision`
-- acts as 0. Only the first of the loops over `size` that runs finds it above 0.
unfoldable pub arrange :
    (zeros to_left : Bool) → (sign pre tmp : List ℕ) → (size precision : ℕ) → List ℕ
arrange zeros to_left sign pre tmp size precision =
    let wide = max (length tmp) precision in
    let room = size - length sign - length pre - wide in
    (if to_left || zeros then [] else replicate room b' ')
    ++ sign
    ++ pre
    ++ (if not to_left && zeros then replicate room b'0' else [])
    ++ replicate (wide - length tmp) b'0'
    ++ backwards tmp
    ++ (if to_left then replicate room b' ' else [])

unfoldable pub layout : List ℕ → (base size precision flags : ℕ) → List ℕ
unfolding arrange
layout tmp base size precision flags =
    arrange (has flags zeropad) (has flags left) (sign_of flags) (prefix base flags) tmp size
      precision

-- `number`; the result `none` is the return of 0 for a base that has no digits. A 32-bit number has no
-- more than 32 digits, so 33 rounds are enough.
unfoldable pub number : (num base size precision flags : ℕ) → Outcome (Option (List ℕ))
unfolding digits_loop layout
number num base size precision flags =
    if ltb base 2 || ltb 36 base
    then done none
    else if num == 0
    then done (some (layout (b'0' ∷ []) base size precision flags))
    else digits_loop 33 (has flags small) base num >>= λ tmp.
        done (some (layout tmp base size precision flags))

-- `skip_atoi`: the number, and the characters behind it
unfoldable pub skip_loop : List ℕ → (i : ℕ) → ℕ × List ℕ
skip_loop [] i = (i, [])
skip_loop (c ∷ s) i = elim (leb b'0' c && leb c b'9') [
  | true ↦ skip_loop s ((i * 10 + c - b'0') % 2 ^ 32)
  | false ↦ (i, c ∷ s)
]

unfoldable pub skip_atoi : List ℕ → ℕ × List ℕ
unfolding skip_loop
skip_atoi s = skip_loop s 0
