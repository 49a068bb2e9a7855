-- ===== src/Vsprintf/Format.antt =====
-- `vsprintf` of lib/vsprintf.c. The format is the list of the characters before its NUL, and the output that of
-- the characters that are written. An `int` is its 32 bits.
use os_store.Base.{
  ℕ, zero, suc, ◌-◌, ◌%◌, ◌^◌, bit_or, Bool, true, false, ◌&&◌, ◌||◌, Option, none, some, List, [],
  ◌∷◌, ◌++◌, ltb, leb, ◌==◌, ◌!=◌, if◌then◌else◌, length, replicate, take, Outcome, done, fault,
  hung, ◌>>=◌, ◌>>◌, assert,
}
use os_store.Vsprintf.{zeropad, plus, space, left, special, small, has, number, skip_atoi}

-- What an argument is: a number, a pointer or a character, or a pointer to the characters of a string.
pub data Arg : Type 0 where
  word : ℕ → Arg
  text : List ℕ → Arg

abbrev pub sign_flag : ℕ
sign_flag = 2

-- the `int` -1
abbrev pub unset : ℕ
unset = 2 ^ 32 - 1

abbrev pub is_negative : ℕ → Bool
is_negative w = leb (2 ^ 31) w

-- An `int` where the code uses it only above 0, or makes it 0 if it is negative.
abbrev pub above_zero : ℕ → ℕ
above_zero w = if is_negative w then 0 else w

-- `va_arg`: an argument of another type than the directive names, or none, is left undefined by C.
abbrev pub va_word : List Arg → Outcome (ℕ × List Arg)
va_word (word w ∷ args) = done (w % 2 ^ 32, args)
va_word _ = fault

abbrev pub va_text : List Arg → Outcome (List ℕ × List Arg)
va_text (text s ∷ args) = done (s, args)
va_text _ = fault

-- `*fmt`
abbrev pub peek : List ℕ → ℕ
peek [] = 0
peek (c ∷ fmt) = c

-- `++fmt`
abbrev pub next : List ℕ → List ℕ
next [] = []
next (c ∷ fmt) = fmt

abbrev pub is_digit : ℕ → Bool
is_digit c = leb b'0' c && leb c b'9'

-- the flag of a character
abbrev pub flag_of : ℕ → Option ℕ
flag_of c =
    if c == b'-'
    then some left
    else if c == b'+'
    then some plus
    else if c == b' '
    then some space
    else if c == b'#'
    then some special
    else if c == b'0'
    then some zeropad
    else none

-- from `repeat` on: the flags, and the characters behind them
unfoldable pub flags_loop : List ℕ → (flags : ℕ) → ℕ × List ℕ
flags_loop [] flags = (flags, [])
flags_loop (c ∷ fmt) flags = elim (flag_of c) [
  | none ↦ (flags, c ∷ fmt)
  | some bit ↦ flags_loop fmt (bit_or flags bit)
]

-- the field's width, the flags, and what is left of the format and of the arguments
unfoldable pub field_width : List ℕ → (flags : ℕ) → List Arg → Outcome (ℕ × ℕ × List ℕ × List Arg)
field_width fmt flags args =
    if is_digit (peek fmt)
    then (let (w, fmt') = skip_atoi fmt in done (w, flags, fmt', args))
    else if peek fmt == b'*'
    then (do
      (w, args') ← va_word args
      if is_negative w
          then done ((2 ^ 32 - w) % 2 ^ 32, bit_or flags left, next fmt, args')
          else done (w, flags, next fmt, args'))
    else done (unset, flags, fmt, args)

-- the precision, and what is left of the format and of the arguments
unfoldable pub precision : List ℕ → List Arg → Outcome (ℕ × List ℕ × List Arg)
precision fmt args =
    if peek fmt == b'.'
    then (if is_digit (peek (next fmt))
        then (let (w, fmt') = skip_atoi (next fmt) in done (above_zero w, fmt', args))
        else if peek (next fmt) == b'*'
        then (do (w, args') ← va_word args; done (above_zero w, next fmt, args'))
        else done (0, next fmt, args))
    else done (unset, fmt, args)

-- the length modifier, which is read and not used
abbrev pub qualifier : List ℕ → List ℕ
qualifier fmt = if peek fmt == b'h' || peek fmt == b'l' || peek fmt == b'L' then next fmt else fmt

-- text in a field: blanks before it, or behind it where it is adjusted to the left
abbrev pub pad : (to_left : Bool) → (width : ℕ) → List ℕ → List ℕ
pad to_left width s =
    let blanks = replicate (width - length s) b' ' in if to_left then s ++ blanks else blanks ++ s

-- what `%s` writes of the string
abbrev pub cut : (precision : ℕ) → List ℕ → List ℕ
cut precision s = if is_negative precision then s else take precision s

-- `number`, whose result 0 would be written through
abbrev pub put_number : (num base width precision flags : ℕ) → Outcome (List ℕ)
put_number num base width precision flags =
    number num base (above_zero width) (above_zero precision) flags >>= λ r. elim r [
      | none ↦ fault
      | some s ↦ done s
    ]

-- the number conversions: the base and the flags that they add
abbrev pub conversion_of : (c : ℕ) → Option (ℕ × ℕ)
conversion_of c =
    if c == b'o'
    then some (8, 0)
    else if c == b'x'
    then some (16, small)
    else if c == b'X'
    then some (16, 0)
    else if c == b'd' || c == b'i'
    then some (10, sign_flag)
    else if c == b'u'
    then some (10, 0)
    else none

-- What a conversion writes, what it stores where, and the arguments that are left. `sofar` is `str - buf`.
unfoldable pub convert :
    (c flags width precision sofar : ℕ) → List Arg → Outcome (List ℕ × List (ℕ × ℕ) × List Arg)
unfolding number
convert c flags width precision sofar args =
    if c == b'c'
    then (do
      (w, args') ← va_word args
      done (pad (has flags left) (above_zero width) (w % 2 ^ 8 ∷ []), [], args'))
    else if c == b's'
    then (do
      (s, args') ← va_text args
      done (pad (has flags left) (above_zero width) (cut precision s), [], args'))
    else if c == b'p'
    then (do
      (w, args') ← va_word args
      let bare = width == unset
      s ←
          put_number w 16 (if bare then 8 else width) precision
            (if bare then bit_or flags zeropad else flags)
      done (s, [], args'))
    else if c == b'n'
    then (do (p, args') ← va_word args; done ([], (p, sofar) ∷ [], args'))
    else elim (conversion_of c) [
      | some (base, more) ↦ do
        (w, args') ← va_word args
        s ← put_number w base width precision (bit_or flags more)
        done (s, [], args')
      | none ↦
          done ((if c != b'%' then b'%' ∷ [] else []) ++ (if c != 0 then c ∷ [] else []), [], args)
    ]

-- The directive behind a `%`: what it writes and stores, what is left of the format behind its last
-- character, and the arguments that are left.
unfoldable pub directive :
    List ℕ → (sofar : ℕ) → List Arg → Outcome (List ℕ × List (ℕ × ℕ) × List ℕ × List Arg)
directive fmt sofar args = do
  let (flags, fmt1) = flags_loop fmt 0
  (width, flags', fmt2, args1) ← field_width fmt1 flags args
  (prec, fmt3, args2) ← precision fmt2 args1
  let fmt4 = qualifier fmt3
  (out, stores, args3) ← convert (peek fmt4) flags' width prec sofar args2
  done (out, stores, next fmt4, args3)

-- the loop of `vsprintf`: what is written, and the stores of `%n`
unfoldable pub format_loop :
    ℕ → (fmt str : List ℕ) → (stores : List (ℕ × ℕ)) → List Arg → Outcome (List ℕ × List (ℕ × ℕ))
format_loop fuel [] str stores args = done (str, stores)
format_loop zero (c ∷ fmt) str stores args = hung
format_loop (suc fuel) (c ∷ fmt) str stores args = elim (c == b'%') [
  | false ↦ format_loop fuel fmt (str ++ c ∷ []) stores args
  | true ↦ directive fmt (length str) args >>= λ (out, new, fmt', args').
      format_loop fuel fmt' (str ++ out) (stores ++ new) args'
]

-- Each round takes a character of the format at least.
unfoldable pub vsprintf : (fmt : List ℕ) → List Arg → Outcome (List ℕ × List (ℕ × ℕ))
vsprintf fmt args = do
  (str, stores) ← format_loop (length fmt) fmt [] [] args
  assert (ltb (length str) 1024)
  done (str, stores)
