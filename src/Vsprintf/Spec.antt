-- ===== src/Vsprintf/Spec.antt =====
-- Formats as a list of characters and directives, and what each prints.
use os_store.Base.{
  ℕ, ◌+◌, ◌-◌, ◌*◌, ◌%◌, ◌^◌, ◌≡◌, bit_or, true, false, List, [], ◌∷◌, ◌++◌, ◌==◌, length, Outcome,
  done, ◌>>=◌,
}
use os_store.Vsprintf.{zeropad, plus, space, left, special}
use os_store.Vsprintf.Format.{Arg, unset, is_negative, above_zero, va_word, is_digit, convert}

pub data Flag : Type 0 where
  to_left : Flag
  signed : Flag
  blank : Flag
  prefixed : Flag
  zeros : Flag

abbrev pub flag_char : Flag → ℕ
flag_char to_left = b'-'
flag_char signed = b'+'
flag_char blank = b' '
flag_char prefixed = b'#'
flag_char zeros = b'0'

abbrev pub flag_bit : Flag → ℕ
flag_bit to_left = left
flag_bit signed = plus
flag_bit blank = space
flag_bit prefixed = special
flag_bit zeros = zeropad

abbrev pub flags_text : List Flag → List ℕ
flags_text [] = []
flags_text (f ∷ fs) = flag_char f ∷ flags_text fs

abbrev pub all_flags : (flags : ℕ) → List Flag → ℕ
all_flags flags [] = flags
all_flags flags (f ∷ fs) = all_flags (bit_or flags (flag_bit f)) fs

-- the number of 32 bits that decimal digits stand for, behind those that stand for `i`
abbrev pub decimal : (i : ℕ) → List ℕ → ℕ
decimal i [] = i
decimal i (c ∷ ds) = decimal ((i * 10 + c - b'0') % 2 ^ 32) ds

-- no width, one in digits, or an argument
pub data Width : Type 0 where
  free : Width
  fixed : List ℕ → Width
  starred : Width

-- no precision, or one in digits
pub data Precision : Type 0 where
  full : Precision
  point : List ℕ → Precision

pub data Modifier : Type 0 where
  plain : Modifier
  short : Modifier
  long : Modifier
  long_double : Modifier

pub data Conversion : Type 0 where
  character : Conversion
  string : Conversion
  octal : Conversion
  pointer : Conversion
  hex : Conversion
  upper_hex : Conversion
  decimal_d : Conversion
  decimal_i : Conversion
  unsigned : Conversion
  count : Conversion
  percent : Conversion

abbrev pub conversion_char : Conversion → ℕ
conversion_char character = b'c'
conversion_char string = b's'
conversion_char octal = b'o'
conversion_char pointer = b'p'
conversion_char hex = b'x'
conversion_char upper_hex = b'X'
conversion_char decimal_d = b'd'
conversion_char decimal_i = b'i'
conversion_char unsigned = b'u'
conversion_char count = b'n'
conversion_char percent = b'%'

abbrev pub width_text : Width → List ℕ → List ℕ
width_text free rest = rest
width_text (fixed ds) rest = ds ++ rest
width_text starred rest = b'*' ∷ rest

abbrev pub precision_text : Precision → List ℕ → List ℕ
precision_text full rest = rest
precision_text (point ds) rest = b'.' ∷ ds ++ rest

abbrev pub modifier_text : Modifier → List ℕ → List ℕ
modifier_text plain rest = rest
modifier_text short rest = b'h' ∷ rest
modifier_text long rest = b'l' ∷ rest
modifier_text long_double rest = b'L' ∷ rest

-- an ordinary character, or a directive
pub data Piece : Type 0 where
  ordinary : ℕ → Piece
  conversion : List Flag → Width → Precision → Modifier → Conversion → Piece

-- the pieces as a format
abbrev pub render : List Piece → List ℕ
render [] = []
render (ordinary c ∷ ps) = c ∷ render ps
render (conversion fs w p m c ∷ ps) =
    b'%' ∷ flags_text fs
    ++ width_text w (precision_text p (modifier_text m (conversion_char c ∷ render ps)))

abbrev pub AllDigits : List ℕ → Type 0
AllDigits [] = Unit {0}
AllDigits (c ∷ ds) = (is_digit c ≡ true) × AllDigits ds

-- A width in digits has one at least, and does not start with a zero, which would be a flag.
abbrev pub IsWidth : Width → Type 0
IsWidth (fixed (c ∷ ds)) = ((c == b'0') ≡ false) × AllDigits (c ∷ ds)
IsWidth (fixed []) = ⊥
IsWidth _ = Unit {0}

abbrev pub IsPrecision : Precision → Type 0
IsPrecision (point ds) = AllDigits ds
IsPrecision full = Unit {0}

abbrev pub IsPiece : Piece → Type 0
IsPiece (ordinary c) = (c == b'%') ≡ false
IsPiece (conversion fs w p m c) = IsWidth w × IsPrecision p

abbrev pub AllPieces : List Piece → Type 0
AllPieces [] = Unit {0}
AllPieces (p ∷ ps) = IsPiece p × AllPieces ps

-- the width and the flags; a negative argument is a width to the left
abbrev pub width_of : Width → (flags : ℕ) → List Arg → Outcome (ℕ × ℕ × List Arg)
width_of free flags args = done (unset, flags, args)
width_of (fixed ds) flags args = done (decimal 0 ds, flags, args)
width_of starred flags args = va_word args >>= λ (w, args'). elim (is_negative w) [
  | true ↦ done ((2 ^ 32 - w) % 2 ^ 32, bit_or flags left, args')
  | false ↦ done (w, flags, args')
]

abbrev pub precision_of : Precision → ℕ
precision_of full = unset
precision_of (point ds) = above_zero (decimal 0 ds)

-- What a directive writes and stores, and the arguments that are left.
abbrev pub perform :
    List Flag
    → Width
    → Precision
    → Conversion
    → (sofar : ℕ) → List Arg
    → Outcome (List ℕ × List (ℕ × ℕ) × List Arg)
perform fs w p c sofar args = width_of w (all_flags 0 fs) args >>= λ (width, flags, args').
    convert (conversion_char c) flags width (precision_of p) sofar args'

-- the pieces printed behind `str`
abbrev pub print :
    List Piece
    → (str : List ℕ) → (stores : List (ℕ × ℕ)) → List Arg
    → Outcome (List ℕ × List (ℕ × ℕ))
print [] str stores args = done (str, stores)
print (ordinary c ∷ ps) str stores args = print ps (str ++ c ∷ []) stores args
print (conversion fs w p m c ∷ ps) str stores args =
    perform fs w p c (length str) args >>= λ (out, new, args').
    print ps (str ++ out) (stores ++ new) args'
