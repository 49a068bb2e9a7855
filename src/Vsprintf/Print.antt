-- ===== src/Vsprintf/Print.antt =====
-- vsprintf reads a directive as it was written, and so prints a format as its pieces say.
use os_store.Base.{
  ℕ, zero, suc, ◌≤◌, ◌≡◌, refl, List, [], ◌∷◌, ◌++◌, ltb, length, length-append, arith, Outcome,
  done, fault, hung, panic, ◌>>=◌, ◌>>◌, assert,
}
use os_store.Vsprintf.Format.{
  Arg, convert, peek, next, precision, qualifier, directive, format_loop, vsprintf,
}
use os_store.Vsprintf.Spec.{
  Flag, flags_text, all_flags, Width, free, fixed, starred, Precision, full, point, Modifier, plain,
  short, long, long_double, Conversion, conversion_char, width_text, precision_text, modifier_text,
  Piece, ordinary, conversion, render, IsWidth, IsPrecision, AllPieces, width_of, precision_of,
  perform, print,
}
use os_store.Vsprintf.Scan.{
  IsEnd, IsStop, field_width-width_text, flags_loop-flags_text, modifier_text-IsStop,
  precision-precision_text, precision_text-IsEnd, qualifier-modifier_text, width_text-flag_of,
}

length-width_text : (w : Width) (rest : List ℕ) → length rest ≤ length (width_text w rest)
length-width_text free rest = omega arith
length-width_text (fixed ds) rest = omega (arith, length-append ds rest)
length-width_text starred rest = omega arith

length-precision_text :
    (p : Precision) (rest : List ℕ) → length rest ≤ length (precision_text p rest)
length-precision_text full rest = omega arith
length-precision_text (point ds) rest = omega (arith, length-append ds rest)

length-modifier_text : (m : Modifier) (rest : List ℕ) → length rest ≤ length (modifier_text m rest)
length-modifier_text plain rest = omega arith
length-modifier_text short rest = omega arith
length-modifier_text long rest = omega arith
length-modifier_text long_double rest = omega arith

-- A directive is read as it was written.
pub directive-perform :
    (fs : List Flag) (w : Width) (p : Precision) (m : Modifier) (c : Conversion) (rest : List ℕ)
    (sofar : ℕ) (args : List Arg)
    → IsWidth w
    → IsPrecision p
    → directive
        (flags_text fs
          ++ width_text w (precision_text p (modifier_text m (conversion_char c ∷ rest))))
        sofar
        args
      ≡ (perform fs w p c sofar args >>= λ (out, stores, args'). done (out, stores, rest, args'))
unfolding directive
directive-perform fs w p m c rest sofar args iw ip =
    let t3 : List ℕ = modifier_text m (conversion_char c ∷ rest) in
    let stop : IsStop (peek t3) = modifier_text-IsStop m c rest in
    let end : IsEnd (peek (precision_text p t3)) = precision_text-IsEnd p t3 stop in
    rw
      (
        directive,
        flags_loop-flags_text fs (width_text w (precision_text p t3)) 0
            (width_text-flag_of w (precision_text p t3) iw end),
        field_width-width_text w (precision_text p t3) (all_flags 0 fs) args iw end,
      )
      (go (width_of w (all_flags 0 fs) args))
  where
    t3 : List ℕ
    t3 = modifier_text m (conversion_char c ∷ rest)

    go :
        (o : Outcome (ℕ × ℕ × List Arg))
        → ◌>>=◌ {A = ℕ × ℕ × List ℕ × List Arg} {B = List ℕ × List (ℕ × ℕ) × List ℕ × List Arg}
            (o >>= λ (width, flags, args'). done (width, flags, precision_text p t3, args'))
            (λ (width, flags, fmt2, args1). precision fmt2 args1 >>= λ (prec, fmt3, args2).
              convert (peek (qualifier fmt3)) flags width prec sofar args2
              >>= λ (out, stores, args3). done (out, stores, next (qualifier fmt3), args3))
          ≡ ((o >>= λ (width, flags, args').
                convert (conversion_char c) flags width (precision_of p) sofar args')
              >>= λ (out, stores, args'). done (out, stores, rest, args'))
    go (done (width, flags, args')) =
        rw
          (
            precision-precision_text p t3 args' ip (modifier_text-IsStop m c rest),
            qualifier-modifier_text m c rest,
          )
          refl
    go panic = refl
    go fault = refl
    go hung = refl

length-render :
    (fs : List Flag) (w : Width) (p : Precision) (m : Modifier) (c : Conversion) (rest : List ℕ)
    → length rest
      ≤ length (
          flags_text fs
          ++ width_text w (precision_text p (modifier_text m (conversion_char c ∷ rest))))
length-render fs w p m c rest =
    let t3 : List ℕ = modifier_text m (conversion_char c ∷ rest) in
    let t2 : List ℕ = precision_text p t3 in
    omega (
      arith,
      length-append (flags_text fs) (width_text w t2),
      length-width_text w t2,
      length-precision_text p t3,
      length-modifier_text m (conversion_char c ∷ rest),
    )

-- enough rounds for the characters of the pieces
pub format_loop-print :
    (ps : List Piece) (fuel : ℕ) (str : List ℕ) (stores : List (ℕ × ℕ)) (args : List Arg)
    → AllPieces ps
    → length (render ps) ≤ fuel
    → format_loop fuel (render ps) str stores args ≡ print ps str stores args
unfolding format_loop
format_loop-print [] zero str stores args _ _ = refl
format_loop-print [] (suc fuel) str stores args _ _ = refl
format_loop-print (ordinary c ∷ ps) zero str stores args _ l = absurd (omega arith)
format_loop-print (ordinary c ∷ ps) (suc fuel) str stores args (o, a) l =
    rw (format_loop, o) (format_loop-print ps fuel (str ++ c ∷ []) stores args a (omega (arith, l)))
format_loop-print (conversion fs w p m c ∷ ps) zero str stores args _ l = absurd (omega arith)
format_loop-print (conversion fs w p m c ∷ ps) (suc fuel) str stores args ((iw, ip), a) l =
    rw (format_loop, directive-perform fs w p m c (render ps) (length str) args iw ip)
      (go
        (λ out new args'.
          format_loop-print ps fuel (str ++ out) (stores ++ new) args' a
            (omega (arith, l, length-render fs w p m c (render ps))))
        (perform fs w p c (length str) args))
  where
    go :
        ((out : List ℕ) (new : List (ℕ × ℕ)) (args' : List Arg)
          → format_loop fuel (render ps) (str ++ out) (stores ++ new) args'
            ≡ print ps (str ++ out) (stores ++ new) args')
        → (o : Outcome (List ℕ × List (ℕ × ℕ) × List Arg))
        → ◌>>=◌ {A = List ℕ × List (ℕ × ℕ) × List ℕ × List Arg}
            (o >>= λ (out, new, args'). done (out, new, render ps, args'))
            (λ (out, new, fmt', args'). format_loop fuel fmt' (str ++ out) (stores ++ new) args')
          ≡ (o >>= λ (out, new, args'). print ps (str ++ out) (stores ++ new) args')
    go next_pieces (done (out, new, args')) = next_pieces out new args'
    go next_pieces panic = refl
    go next_pieces fault = refl
    go next_pieces hung = refl

-- `vsprintf` on a format that is written from pieces prints the pieces one after the other: each ordinary
-- character as it is, and of each directive what its conversion writes with its flags, width and precision.
-- Then it fails where the text has 1024 characters or more. The pieces have no `%` as an ordinary
-- character, widths that do not start with a zero, and no precision from an argument.
pub vsprintf-print :
    (ps : List Piece) (args : List Arg)
    → AllPieces ps
    → vsprintf (render ps) args ≡ (
        print ps [] [] args >>= λ (str, stores).
        assert (ltb (length str) 1024) >> done (str, stores))
unfolding vsprintf
vsprintf-print ps args a =
    rw (vsprintf, format_loop-print ps (length (render ps)) [] [] args a (omega arith))
