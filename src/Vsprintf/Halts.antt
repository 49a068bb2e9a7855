-- ===== src/Vsprintf/Halts.antt =====
-- vsprintf comes to an end, whatever its format and its arguments.
use mathlib.Core.Path.{subst}
use os_store.Base.{
  ℕ, zero, suc, ◌+◌, ◌-◌, ◌*◌, ◌%◌, ◌^◌, ◌<◌, ◌≤◌, ◌≡◌, ◌≢◌, bit_or, ◌||◌, inl, inr, some, List, [],
  ◌∷◌, ◌++◌, ltb, ◌==◌, if◌then◌else◌, length, arith, Outcome, done, fault, hung, panic, ◌>>=◌,
  Bool-cases, Option-cases,
}
use os_store.Vsprintf.{zeropad, skip_atoi, skip_loop}
use os_store.Vsprintf.Digits.{number_lem}
use os_store.Vsprintf.Format.{
  Arg, word, text, unset, is_negative, above_zero, va_word, va_text, is_digit, put_number,
  conversion_of, convert, peek, next, flag_of, flags_loop, field_width, precision, qualifier,
  directive, format_loop, vsprintf,
}

-- no loop uses up its fuel, and what is returned satisfies `P`
abbrev pub Halts {ℓ} : {A : Type ℓ} → (A → Type 0) → Outcome A → Type 0
Halts P (done x) = P x
Halts P hung = ⊥
Halts P _ = Unit {0}

Halts-bind {ℓ κ} :
    {A : Type ℓ} {B : Type κ} (P : A → Type 0) (Q : B → Type 0) (o : Outcome A) (f : A → Outcome B)
    → Halts P o
    → ((a : A) → P a → Halts Q (f a))
    → Halts Q (o >>= f)
Halts-bind P Q (done a) f h g = g a h
Halts-bind P Q panic f h g = tt
Halts-bind P Q fault f h g = tt
Halts-bind P Q hung f h g = absurd h

abbrev Any {ℓ} : {A : Type ℓ} → A → Type 0
Any _ = Unit {0}

flags_loop_shorter : (fmt : List ℕ) (flags : ℕ) → length ((flags_loop fmt flags).1) ≤ length fmt
unfolding flags_loop
flags_loop_shorter [] flags = omega arith
flags_loop_shorter (c ∷ fmt) flags = elim (Option-cases (flag_of c)) [
  | inl h ↦ rw (flags_loop, h) (omega arith)
  | inr (bit, h) ↦ rw (flags_loop, h) (omega (arith, flags_loop_shorter fmt (bit_or flags bit)))
]

skip_loop_shorter : (s : List ℕ) (i : ℕ) → length ((skip_loop s i).1) ≤ length s
unfolding skip_loop
skip_loop_shorter [] i = omega arith
skip_loop_shorter (c ∷ s) i = elim (Bool-cases (is_digit c)) [
  | inl h ↦ rw (skip_loop, h) (omega (arith, skip_loop_shorter s ((i * 10 + c - b'0') % 2 ^ 32)))
  | inr h ↦ rw (skip_loop, h) (omega arith)
]

skip_atoi_shorter : (s : List ℕ) → length ((skip_atoi s).1) ≤ length s
unfolding skip_atoi
skip_atoi_shorter s = skip_loop_shorter s 0

next_shorter : (s : List ℕ) → length (next s) ≤ length s
next_shorter [] = omega arith
next_shorter (c ∷ s) = omega arith

va_word-Halts : (args : List Arg) → Halts (λ r. r.0 < 2 ^ 32) (va_word args)
va_word-Halts [] = tt
va_word-Halts (text s ∷ args) = tt
va_word-Halts (word w ∷ args) = omega arith

va_text-Halts : (args : List Arg) → Halts Any (va_text args)
va_text-Halts [] = tt
va_text-Halts (text s ∷ args) = tt
va_text-Halts (word w ∷ args) = tt

field_width-Halts :
    (fmt : List ℕ) (flags : ℕ) (args : List Arg)
    → Halts (λ r. length (r.2) ≤ length fmt) (field_width fmt flags args)
unfolding field_width
field_width-Halts fmt flags args = elim (Bool-cases (is_digit (peek fmt))) [
  | inl d ↦ rw (field_width, d) (skip_atoi_shorter fmt)
  | inr d ↦ elim (Bool-cases (peek fmt == b'*')) [
    | inr s ↦ rw (field_width, d, s) (omega arith)
    | inl s ↦
        rw (field_width, d, s)
          (Halts-bind (λ r. r.0 < 2 ^ 32) (λ r. length (r.2) ≤ length fmt) (va_word args) _
            (va_word-Halts args)
            (λ r _. elim (Bool-cases (is_negative (r.0))) [
              | inl n ↦ rw n (next_shorter fmt)
              | inr n ↦ rw n (next_shorter fmt)
            ]))
  ]
]

precision-Halts :
    (fmt : List ℕ) (args : List Arg) → Halts (λ r. length (r.1) ≤ length fmt) (precision fmt args)
unfolding precision
precision-Halts fmt args = elim (Bool-cases (peek fmt == b'.')) [
  | inr p ↦ rw (precision, p) (omega arith)
  | inl p ↦ elim (Bool-cases (is_digit (peek (next fmt)))) [
    | inl d ↦ rw (precision, p, d) (omega (arith, skip_atoi_shorter (next fmt), next_shorter fmt))
    | inr d ↦ elim (Bool-cases (peek (next fmt) == b'*')) [
      | inr s ↦ rw (precision, p, d, s) (next_shorter fmt)
      | inl s ↦
          rw (precision, p, d, s)
            (Halts-bind (λ r. r.0 < 2 ^ 32) (λ r. length (r.1) ≤ length fmt) (va_word args) _
              (va_word-Halts args) (λ r _. next_shorter fmt))
    ]
  ]
]

put_number-Halts :
    (num base width prec flags : ℕ)
    → 2 ≤ base
    → base ≤ 36
    → num < 2 ^ 32
    → Halts Any (put_number num base width prec flags)
put_number-Halts num base width prec flags lo hi l =
    let (_, e, _, _, _) = number_lem num base (above_zero width) (above_zero prec) flags lo hi l in
    rw e tt

-- a conversion of the argument as a number in one of the bases
number-Halts :
    (base : ℕ) (width prec flags : ℕ) (args : List Arg)
    → 2 ≤ base
    → base ≤ 36
    → Halts {A = List ℕ × List (ℕ × ℕ) × List Arg} Any (
        va_word args >>= λ (w, args').
        put_number w base width prec flags >>= λ s. done (s, [], args'))
number-Halts base width prec flags args lo hi =
    Halts-bind (λ r. r.0 < 2 ^ 32) Any (va_word args) _ (va_word-Halts args)
      (λ r l.
        Halts-bind Any Any (put_number (r.0) base width prec flags) _
          (put_number-Halts (r.0) base width prec flags lo hi l) (λ s _. tt))

conversion_of-base :
    (c : ℕ) (base more : ℕ) → conversion_of c ≡ some (base, more) → (2 ≤ base) × (base ≤ 36)
conversion_of-base c base more e = (ground (arith, e), ground (arith, e))

convert-Halts :
    (c flags width prec sofar : ℕ) (args : List Arg)
    → Halts Any (convert c flags width prec sofar args)
unfolding convert
convert-Halts c flags width prec sofar args = elim (Bool-cases (c == b'c')) [
  | inl k ↦
      rw (convert, k)
        (Halts-bind (λ r. r.0 < 2 ^ 32) Any (va_word args) _ (va_word-Halts args) (λ r _. tt))
  | inr k ↦ elim (Bool-cases (c == b's')) [
    | inl l ↦
        rw (convert, k, l) (Halts-bind Any Any (va_text args) _ (va_text-Halts args) (λ r _. tt))
    | inr l ↦ elim (Bool-cases (c == b'p')) [
      | inl m ↦
          rw (convert, k, l, m)
            (number-Halts 16 (if width == unset then 8 else width) prec
              (if width == unset then bit_or flags zeropad else flags) args (omega arith)
              (omega arith))
      | inr m ↦ elim (Bool-cases (c == b'n')) [
        | inl n ↦
            rw (convert, k, l, m, n)
              (Halts-bind (λ r. r.0 < 2 ^ 32) Any (va_word args) _ (va_word-Halts args) (λ r _. tt))
        | inr n ↦ elim (Option-cases (conversion_of c)) [
          | inl o ↦ rw (convert, k, l, m, n, o) tt
          | inr ((base, more), o) ↦
              let (lo, hi) = conversion_of-base c base more o in
              rw (convert, k, l, m, n, o)
                (number-Halts base width prec (bit_or flags more) args lo hi)
        ]
      ]
    ]
  ]
]

qualifier_shorter : (fmt : List ℕ) → length (qualifier fmt) ≤ length fmt
qualifier_shorter fmt =
    elim (Bool-cases (peek fmt == b'h' || peek fmt == b'l' || peek fmt == b'L')) [
      | inl h ↦ rw h (next_shorter fmt)
      | inr h ↦ rw h (omega arith)
    ]

directive-Halts :
    (fmt : List ℕ) (sofar : ℕ) (args : List Arg)
    → Halts (λ r. length (r.2) ≤ length fmt) (directive fmt sofar args)
unfolding directive
directive-Halts fmt sofar args =
    let flags : ℕ = (flags_loop fmt 0).0 in
    let fmt1 : List ℕ = (flags_loop fmt 0).1 in
    Halts-bind (λ r. length (r.2) ≤ length fmt1) (λ r. length (r.2) ≤ length fmt)
      (field_width fmt1 flags args) _ (field_width-Halts fmt1 flags args)
      (λ f lf.
        Halts-bind (λ r. length (r.1) ≤ length (f.2)) (λ r. length (r.2) ≤ length fmt)
          (precision (f.2) (f.3)) _ (precision-Halts (f.2) (f.3))
          (λ p lp.
            Halts-bind Any (λ r. length (r.2) ≤ length fmt)
              (convert (peek (qualifier (p.1))) (f.1) (f.0) (p.0) sofar (p.2)) _
              (convert-Halts (peek (qualifier (p.1))) (f.1) (f.0) (p.0) sofar (p.2))
              (λ o _. omega (
                arith,
                flags_loop_shorter fmt 0,
                lf,
                lp,
                qualifier_shorter (p.1),
                next_shorter (qualifier (p.1)),
              ))))

format_loop-Halts :
    (fuel : ℕ) (fmt str : List ℕ) (stores : List (ℕ × ℕ)) (args : List Arg)
    → length fmt ≤ fuel
    → Halts Any (format_loop fuel fmt str stores args)
unfolding format_loop
format_loop-Halts zero [] str stores args l = tt
format_loop-Halts (suc fuel) [] str stores args l = tt
format_loop-Halts zero (c ∷ fmt) str stores args l = absurd (omega arith)
format_loop-Halts (suc fuel) (c ∷ fmt) str stores args l = elim (Bool-cases (c == b'%')) [
  | inr h ↦
      rw (format_loop, h)
        (format_loop-Halts fuel fmt (str ++ c ∷ []) stores args (omega (arith, l)))
  | inl h ↦
      rw (format_loop, h)
        (Halts-bind (λ r. length (r.2) ≤ length fmt) Any (directive fmt (length str) args) _
          (directive-Halts fmt (length str) args)
          (λ r s.
            format_loop-Halts fuel (r.2) (str ++ r.0) (stores ++ r.1) (r.3) (omega (arith, l, s))))
]

-- `vsprintf` comes to an end for every format and all arguments: no loop needs more rounds than it is given,
-- that of the format one for each character, and that of the digits 33.
pub vsprintf-Halts : (fmt : List ℕ) (args : List Arg) → vsprintf fmt args ≢ hung
unfolding vsprintf
vsprintf-Halts fmt args e = subst (Halts Any) e (
    Halts-bind Any Any (format_loop (length fmt) fmt [] [] args) _
      (format_loop-Halts (length fmt) fmt [] [] args (omega arith))
      (λ r _. elim (Bool-cases (ltb (length (r.0)) 1024)) [ inl h ↦ rw h tt | inr h ↦ rw h tt ]))
