-- ===== src/Vsprintf/Scan.antt =====
-- Each part of a directive is read as it was written.
use os_store.Base.{
  ℕ, ◌+◌, ◌-◌, ◌*◌, ◌%◌, ◌^◌, ◌≡◌, refl, bit_or, Bool, true, false, none, some, List, [], ◌∷◌, ◌++◌,
  ◌==◌, if◌then◌else◌, arith, Outcome, done, fault, hung, panic, ◌>>=◌,
}
use os_store.Vsprintf.{left, skip_atoi, skip_loop}
use os_store.Vsprintf.Format.{
  Arg, is_negative, va_word, is_digit, peek, flag_of, flags_loop, field_width, precision, qualifier,
}
use os_store.Vsprintf.Spec.{
  Flag, to_left, signed, blank, prefixed, zeros, flag_char, flag_bit, flags_text, all_flags,
  decimal, Width, free, fixed, starred, Precision, full, point, Modifier, plain, short, long,
  long_double, Conversion, character, string, octal, pointer, hex, upper_hex, decimal_d, decimal_i,
  unsigned, count, percent, conversion_char, width_text, precision_text, modifier_text, AllDigits,
  IsWidth, IsPrecision, width_of, precision_of,
}

flag_of-flag_char : (f : Flag) → flag_of (flag_char f) ≡ some (flag_bit f)
flag_of-flag_char to_left = refl
flag_of-flag_char signed = refl
flag_of-flag_char blank = refl
flag_of-flag_char prefixed = refl
flag_of-flag_char zeros = refl

pub flags_loop-flags_text :
    (fs : List Flag) (rest : List ℕ) (flags : ℕ)
    → flag_of (peek rest) ≡ none
    → flags_loop (flags_text fs ++ rest) flags ≡ (all_flags flags fs, rest)
unfolding flags_loop
flags_loop-flags_text [] [] flags h = refl
flags_loop-flags_text [] (c ∷ rest) flags h = rw (flags_loop, h)
flags_loop-flags_text (f ∷ fs) rest flags h =
    rw (flags_loop, flag_of-flag_char f)
      (flags_loop-flags_text fs rest (bit_or flags (flag_bit f)) h)

skip_loop-append :
    (ds rest : List ℕ) (i : ℕ)
    → AllDigits ds
    → is_digit (peek rest) ≡ false
    → skip_loop (ds ++ rest) i ≡ (decimal i ds, rest)
unfolding skip_loop
skip_loop-append [] [] i a h = refl
skip_loop-append [] (c ∷ rest) i a h = rw (skip_loop, h)
skip_loop-append (c ∷ ds) rest i (d, a) h =
    rw (skip_loop, d) (skip_loop-append ds rest ((i * 10 + c - b'0') % 2 ^ 32) a h)

-- a character that ends the flags, the width and the precision
abbrev pub IsStop : ℕ → Type 0
IsStop c = (flag_of c ≡ none) × (is_digit c ≡ false) × ((c == b'*') ≡ false) × ((c == b'.') ≡ false)

conversion_char-IsStop : (c : Conversion) → IsStop (conversion_char c)
conversion_char-IsStop character = (refl, refl, refl, refl)
conversion_char-IsStop string = (refl, refl, refl, refl)
conversion_char-IsStop octal = (refl, refl, refl, refl)
conversion_char-IsStop pointer = (refl, refl, refl, refl)
conversion_char-IsStop hex = (refl, refl, refl, refl)
conversion_char-IsStop upper_hex = (refl, refl, refl, refl)
conversion_char-IsStop decimal_d = (refl, refl, refl, refl)
conversion_char-IsStop decimal_i = (refl, refl, refl, refl)
conversion_char-IsStop unsigned = (refl, refl, refl, refl)
conversion_char-IsStop count = (refl, refl, refl, refl)
conversion_char-IsStop percent = (refl, refl, refl, refl)

pub modifier_text-IsStop :
    (m : Modifier) (c : Conversion) (rest : List ℕ)
    → IsStop (peek (modifier_text m (conversion_char c ∷ rest)))
modifier_text-IsStop plain c rest = conversion_char-IsStop c
modifier_text-IsStop short c rest = (refl, refl, refl, refl)
modifier_text-IsStop long c rest = (refl, refl, refl, refl)
modifier_text-IsStop long_double c rest = (refl, refl, refl, refl)

pub qualifier-modifier_text :
    (m : Modifier) (c : Conversion) (rest : List ℕ)
    → qualifier (modifier_text m (conversion_char c ∷ rest)) ≡ conversion_char c ∷ rest
qualifier-modifier_text short c rest = refl
qualifier-modifier_text long c rest = refl
qualifier-modifier_text long_double c rest = refl
qualifier-modifier_text plain character rest = refl
qualifier-modifier_text plain string rest = refl
qualifier-modifier_text plain octal rest = refl
qualifier-modifier_text plain pointer rest = refl
qualifier-modifier_text plain hex rest = refl
qualifier-modifier_text plain upper_hex rest = refl
qualifier-modifier_text plain decimal_d rest = refl
qualifier-modifier_text plain decimal_i rest = refl
qualifier-modifier_text plain unsigned rest = refl
qualifier-modifier_text plain count rest = refl
qualifier-modifier_text plain percent rest = refl

pub precision-precision_text :
    (p : Precision) (rest : List ℕ) (args : List Arg)
    → IsPrecision p
    → IsStop (peek rest)
    → precision (precision_text p rest) args ≡ done (precision_of p, rest, args)
unfolding precision skip_atoi
precision-precision_text full rest args _ (_, _, _, h) = rw (precision, h)
precision-precision_text (point []) rest args _ (_, d, s, _) = rw (precision, d, s)
precision-precision_text (point (c ∷ ds)) rest args (d, a) (_, e, _, _) =
    rw (precision, d, skip_loop-append (c ∷ ds) rest 0 (d, a) e)

-- what the width ends at
abbrev pub IsEnd : ℕ → Type 0
IsEnd c = (flag_of c ≡ none) × (is_digit c ≡ false) × ((c == b'*') ≡ false)

pub precision_text-IsEnd :
    (p : Precision) (rest : List ℕ) → IsStop (peek rest) → IsEnd (peek (precision_text p rest))
precision_text-IsEnd full rest (a, b, c, _) = (a, b, c)
precision_text-IsEnd (point ds) rest _ = (refl, refl, refl)

digit-flag_of : (c : ℕ) → is_digit c ≡ true → (c == b'0') ≡ false → flag_of c ≡ none
digit-flag_of c d z = ground (arith, d, z)

pub width_text-flag_of :
    (w : Width) (rest : List ℕ)
    → IsWidth w
    → IsEnd (peek rest)
    → flag_of (peek (width_text w rest)) ≡ none
width_text-flag_of free rest _ (a, _, _) = a
width_text-flag_of (fixed []) rest h _ = absurd h
width_text-flag_of (fixed (c ∷ ds)) rest (z, (d, _)) _ = digit-flag_of c d z
width_text-flag_of starred rest _ _ = refl

pub field_width-width_text :
    (w : Width) (rest : List ℕ) (flags : ℕ) (args : List Arg)
    → IsWidth w
    → IsEnd (peek rest)
    → field_width (width_text w rest) flags args
      ≡ (width_of w flags args >>= λ (width, flags', args'). done (width, flags', rest, args'))
unfolding field_width skip_atoi
field_width-width_text free rest flags args _ (_, d, s) = rw (field_width, d, s)
field_width-width_text (fixed []) rest flags args h _ = absurd h
field_width-width_text (fixed (c ∷ ds)) rest flags args (z, (d, a)) (_, e, _) =
    rw (field_width, d, skip_loop-append (c ∷ ds) rest 0 (d, a) e)
field_width-width_text starred rest flags args _ _ = go (va_word args) refl
  where
    by_sign :
        (w : ℕ) (args' : List Arg) (b : Bool)
        → if◌then◌else◌ {A = Outcome (ℕ × ℕ × List ℕ × List Arg)} b
            (done ((2 ^ 32 - w) % 2 ^ 32, bit_or flags left, rest, args'))
            (done (w, flags, rest, args'))
          ≡ ◌>>=◌ {A = ℕ × ℕ × List Arg}
              (elim b [
                | true ↦ done ((2 ^ 32 - w) % 2 ^ 32, bit_or flags left, args')
                | false ↦ done (w, flags, args')
              ])
              (λ (width, flags', args''). done (width, flags', rest, args''))
    by_sign w args' true = refl
    by_sign w args' false = refl

    go :
        (o : Outcome (ℕ × List Arg))
        → va_word args ≡ o
        → field_width (b'*' ∷ rest) flags args ≡ (
            width_of starred flags args >>= λ (width, flags', args').
            done (width, flags', rest, args'))
    go (done (w, args')) e = rw (field_width, e) (by_sign w args' (is_negative w))
    go panic e = rw (field_width, e)
    go fault e = rw (field_width, e)
    go hung e = rw (field_width, e)
