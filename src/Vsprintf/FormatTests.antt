-- ===== src/Vsprintf/FormatTests.antt =====
-- Runs of vsprintf, and its theorems at a format.
use os_store.Base.{◌≡◌, refl, List, [], ◌∷◌, length, done, ◌>>=◌, ◌>>◌, assert, ltb, ◌≢◌, hung}
use os_store.Vsprintf.{skip_atoi}
use os_store.Vsprintf.Format.{
  Arg, word, text, vsprintf, format_loop, directive, flags_loop, field_width, precision, convert,
}
use os_store.Vsprintf.Spec.{
  Piece, ordinary, conversion, to_left, zeros, free, fixed, starred, full, point, plain, long,
  string, hex, decimal_d, render, print,
}
use os_store.Vsprintf.Print.{vsprintf-print}
use os_store.Vsprintf.Halts.{vsprintf-Halts}

-- "a%-4d|%.2s%%" of 42 and "xyz"
mixed :
    vsprintf
      (b'a' ∷ b'%' ∷ b'-' ∷ b'4' ∷ b'd' ∷ b'|' ∷ b'%' ∷ b'.' ∷ b'2' ∷ b's' ∷ b'%' ∷ b'%' ∷ [])
      (word 42 ∷ text (b'x' ∷ b'y' ∷ b'z' ∷ []) ∷ [])
    ≡ done (b'a' ∷ b'4' ∷ b'2' ∷ b' ' ∷ b' ' ∷ b'|' ∷ b'x' ∷ b'y' ∷ b'%' ∷ [], [])
unfolding vsprintf format_loop directive flags_loop field_width precision convert skip_atoi
mixed = refl

-- "%.*s" takes the precision, prints the asterisk, and takes no string.
starred_precision :
    vsprintf (b'%' ∷ b'.' ∷ b'*' ∷ b's' ∷ []) (word 2 ∷ text (b'x' ∷ []) ∷ [])
    ≡ done (b'%' ∷ b'*' ∷ b's' ∷ [], [])
unfolding vsprintf format_loop directive flags_loop field_width precision convert skip_atoi
starred_precision = refl

-- "n%-*ld%.3s"
abbrev pieces : List Piece
pieces =
    ordinary b'n'
    ∷ conversion (to_left ∷ []) starred full long decimal_d
    ∷ conversion [] free (point (b'3' ∷ [])) plain string
    ∷ conversion (zeros ∷ []) (fixed (b'1' ∷ b'2' ∷ [])) full plain hex
    ∷ []

abbrev arguments : List Arg
arguments = word 6 ∷ word 42 ∷ text (b'x' ∷ b'y' ∷ []) ∷ word 0xbeef ∷ []

vsprintf-print_example : vsprintf (render pieces) arguments ≡ (
    print pieces [] [] arguments >>= λ (str, stores).
    assert (ltb (length str) 1024) >> done (str, stores))
vsprintf-print_example =
    vsprintf-print pieces arguments
      (refl, ((tt, tt), ((tt, (refl, tt)), (((refl, (refl, (refl, tt))), tt), tt))))

vsprintf-Halts_example : vsprintf (render pieces) arguments ≢ hung
vsprintf-Halts_example = vsprintf-Halts (render pieces) arguments
