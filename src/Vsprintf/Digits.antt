-- ===== src/Vsprintf/Digits.antt =====
-- The digits and the width of what `number` of lib/vsprintf.c writes.
use native.Mathlib.Nat.{div-lt_iff_lt-mul, div-add-mod, mod-lt, mul_comm, mul-le-mul_left, pow-suc}
use mathlib.Core.List.{append-nil, append_assoc}
use os_store.Base.{
  ℕ, zero, suc, ◌+◌, ◌-◌, ◌*◌, ◌/◌, ◌%◌, ◌^◌, ◌<◌, ◌≤◌, ◌≡◌, refl, sym, ◌∙◌, max, Bool, true, false,
  not, ◌&&◌, ◌||◌, some, List, [], ◌∷◌, ◌++◌, ltb, ◌==◌, if◌then◌else◌, length, replicate,
  length-append, length-replicate, arith, done, ap, Bool-cases, inl, inr, ==_iff,
}
use os_store.Vsprintf.{
  digit, digits_loop, backwards, sign_of, prefix, arrange, layout, number, has, small, left,
  zeropad,
}

-- what a digit stands for, in either case
abbrev pub digit_value : ℕ → ℕ
digit_value c = if ltb c 58 then c - 48 else if ltb c 91 then c - 55 else c - 87

-- the number that the characters in `tmp` stand for, the lowest digit first
abbrev pub value : ℕ → List ℕ → ℕ
value base [] = 0
value base (c ∷ tmp) = base * value base tmp + digit_value c

-- digits of the base, in one of the cases
abbrev pub AllDigits : (lower : Bool) → (base : ℕ) → List ℕ → Type 0
AllDigits lower base [] = Unit {0}
AllDigits lower base (c ∷ ds) =
    ((d : ℕ) × (d < base) × (c ≡ digit lower d)) × AllDigits lower base ds

digit_value-digit : (lower : Bool) (d : ℕ) → d < 36 → digit_value (digit lower d) ≡ d
digit_value-digit true d h = ground arith
digit_value-digit false d h = ground arith

quotient-lt : (k base num : ℕ) → 2 ≤ base → num < 2 ^ suc k → num / base < 2 ^ k
quotient-lt k base num b h =
    let m : 2 ^ k * 2 ≤ 2 ^ k * base = mul-le-mul_left (2 ^ k) b in
    let p : 2 ^ suc k ≡ 2 ^ k * 2 = pow-suc 2 k in
    (div-lt_iff_lt-mul (omega arith)).1 (omega (arith, m, p, h))

module _ (lower : Bool) (base : ℕ) (two : 2 ≤ base) (most : base ≤ 36) where
  pub digits_loop-value :
      (k num : ℕ)
      → num < 2 ^ k
      → (tmp : List ℕ) × (digits_loop (suc k) lower base num ≡ done tmp)
        × (value base tmp ≡ num)
        × (length tmp ≤ k)
        × AllDigits lower base tmp
  unfolding digits_loop
  digits_loop-value zero num h =
      ([], (let z : num ≡ 0 = omega arith in rw z refl), omega arith, omega arith, tt)
  digits_loop-value (suc k) num h = elim (Bool-cases (num == 0)) [
    | inl q ↦ ([], rw (digits_loop, q) refl, sym ((==_iff num 0).0 q), omega arith, tt)
    | inr q ↦
        let (tmp, run, v, size, all) =
          digits_loop-value k (num / base) (quotient-lt k base num two h) in
        let d : digit_value (digit lower (num % base)) ≡ num % base =
          digit_value-digit lower (num % base)
            (omega (arith, mod-lt num {m = base} (omega arith), most)) in
        (
          digit lower (num % base) ∷ tmp,
          rw (digits_loop, q, run) refl,
          rw (v, d) (div-add-mod num base),
          omega (arith, size),
          ((num % base, mod-lt num {m = base} (omega arith), refl), all),
        )
  ]

length-backwards : (tmp : List ℕ) → length (backwards tmp) ≡ length tmp
length-backwards [] = refl
length-backwards (c ∷ tmp) =
    length-append (backwards tmp) (c ∷ []) ∙ omega (arith, length-backwards tmp)

-- the characters of the sign and the prefix
abbrev pub front : ℕ → ℕ → ℕ
front base flags = length (sign_of flags) + length (prefix base flags)

length-append_seven :
    (a b c d e f g : List ℕ)
    → length (a ++ b ++ c ++ d ++ e ++ f ++ g)
      ≡ length a + (length b + (length c + (length d + (length e + (length f + length g)))))
length-append_seven a b c d e f g = omega (
  arith,
  length-append a b,
  length-append (a ++ b) c,
  length-append (a ++ b ++ c) d,
  length-append (a ++ b ++ c ++ d) e,
  length-append (a ++ b ++ c ++ d ++ e) f,
  length-append (a ++ b ++ c ++ d ++ e ++ f) g,
)

length-arrange :
    (lead to_left : Bool) (sign pre tmp : List ℕ) (size precision : ℕ)
    → length (arrange lead to_left sign pre tmp size precision)
      ≡ max size (length sign + length pre + max (length tmp) precision)
unfolding arrange
length-arrange true true sign pre tmp size precision = omega (
  arith,
  length-append_seven [] sign pre [] (replicate (max (length tmp) precision - length tmp) b'0')
      (backwards tmp)
      (replicate (size - length sign - length pre - max (length tmp) precision) b' '),
  length-replicate {A = ℕ} (size - length sign - length pre - max (length tmp) precision) b' ',
  length-replicate {A = ℕ} (max (length tmp) precision - length tmp) b'0',
  length-backwards tmp,
)
length-arrange true false sign pre tmp size precision = omega (
  arith,
  length-append_seven [] sign pre
      (replicate (size - length sign - length pre - max (length tmp) precision) b'0')
      (replicate (max (length tmp) precision - length tmp) b'0') (backwards tmp) [],
  length-replicate {A = ℕ} (size - length sign - length pre - max (length tmp) precision) b'0',
  length-replicate {A = ℕ} (max (length tmp) precision - length tmp) b'0',
  length-backwards tmp,
)
length-arrange false true sign pre tmp size precision = omega (
  arith,
  length-append_seven [] sign pre [] (replicate (max (length tmp) precision - length tmp) b'0')
      (backwards tmp)
      (replicate (size - length sign - length pre - max (length tmp) precision) b' '),
  length-replicate {A = ℕ} (size - length sign - length pre - max (length tmp) precision) b' ',
  length-replicate {A = ℕ} (max (length tmp) precision - length tmp) b'0',
  length-backwards tmp,
)
length-arrange false false sign pre tmp size precision = omega (
  arith,
  length-append_seven
      (replicate (size - length sign - length pre - max (length tmp) precision) b' ') sign pre []
      (replicate (max (length tmp) precision - length tmp) b'0') (backwards tmp) [],
  length-replicate {A = ℕ} (size - length sign - length pre - max (length tmp) precision) b' ',
  length-replicate {A = ℕ} (max (length tmp) precision - length tmp) b'0',
  length-backwards tmp,
)

length-layout :
    (tmp : List ℕ) (base size precision flags : ℕ)
    → length (layout tmp base size precision flags)
      ≡ max size (front base flags + max (length tmp) precision)
unfolding layout
length-layout tmp base size precision flags =
    length-arrange (has flags zeropad) (has flags left) (sign_of flags) (prefix base flags) tmp size
      precision

-- the number that digits stand for, the highest first, behind those that stand for `n`
abbrev pub read : (base n : ℕ) → List ℕ → ℕ
read base n [] = n
read base n (c ∷ ds) = read base (n * base + digit_value c) ds

AllDigits-append :
    (lower : Bool) (base c : ℕ) (ds : List ℕ)
    → AllDigits lower base ds
    → (d : ℕ) × (d < base) × (c ≡ digit lower d)
    → AllDigits lower base (ds ++ c ∷ [])
AllDigits-append lower base c [] a h = (h, tt)
AllDigits-append lower base c (x ∷ ds) (k, a) h = (k, AllDigits-append lower base c ds a h)

AllDigits-backwards :
    (lower : Bool) (base : ℕ) (tmp : List ℕ)
    → AllDigits lower base tmp
    → AllDigits lower base (backwards tmp)
AllDigits-backwards lower base [] a = tt
AllDigits-backwards lower base (c ∷ tmp) (h, a) =
    AllDigits-append lower base c (backwards tmp) (AllDigits-backwards lower base tmp a) h

read-append :
    (base n c : ℕ) (ds : List ℕ)
    → read base n (ds ++ c ∷ []) ≡ read base n ds * base + digit_value c
read-append base n c [] = refl
read-append base n c (x ∷ ds) = read-append base (n * base + digit_value x) c ds

read-backwards : (base : ℕ) (tmp : List ℕ) → read base 0 (backwards tmp) ≡ value base tmp
read-backwards base [] = refl
read-backwards base (c ∷ tmp) =
    read-append base 0 c (backwards tmp)
    ∙ ap (λ n. n * base + digit_value c) (read-backwards base tmp)
    ∙ ap (λ n. n + digit_value c) (mul_comm (value base tmp) base)

-- The text of a number with the digits `ds`: sign and prefix, the zeros up to the precision and the digits,
-- with the blanks up to the size behind them, or before them, or zeros for the blanks behind the prefix.
abbrev pub picture :
    (zeropad to_left : Bool) → (sign pre ds : List ℕ) → (size precision : ℕ) → List ℕ
picture fill to_left sign pre ds size precision =
    let lead = max (length ds) precision - length ds in
    let room = size - (length sign + length pre) - max (length ds) precision in
    if to_left
    then sign ++ pre ++ replicate lead b'0' ++ ds ++ replicate room b' '
    else if fill
    then sign ++ pre ++ replicate (room + lead) b'0' ++ ds
    else replicate room b' ' ++ sign ++ pre ++ replicate lead b'0' ++ ds

abbrev pub text_of : (ds : List ℕ) → (base size precision flags : ℕ) → List ℕ
text_of ds base size precision flags =
    picture (has flags zeropad) (has flags left) (sign_of flags) (prefix base flags) ds size
      precision

replicate_add : (m n x : ℕ) → replicate m x ++ replicate n x ≡ replicate (m + n) x
replicate_add zero n x = let e : n ≡ 0 + n = omega arith in ap (λ k. replicate k x) e
replicate_add (suc m) n x =
    ap (λ ys. x ∷ ys) (replicate_add m n x)
    ∙ (let e : suc (m + n) ≡ suc m + n = omega arith in ap (λ k. replicate k x) e)

arrange-picture :
    (fill to_left : Bool) (sign pre tmp : List ℕ) (size precision : ℕ)
    → arrange fill to_left sign pre tmp size precision
      ≡ picture fill to_left sign pre (backwards tmp) size precision
unfolding arrange
arrange-picture fill to_left sign pre tmp size precision = rw (length-backwards tmp) (
    go fill to_left (max (length tmp) precision - length tmp)
      (size - length sign - length pre - max (length tmp) precision)
      (size - (length sign + length pre) - max (length tmp) precision) (omega arith))
  where
    go :
        (fill to_left : Bool) (lead room room' : ℕ)
        → room ≡ room'
        → ((if to_left || fill then [] else replicate room b' ')
            ++ sign
            ++ pre
            ++ (if not to_left && fill then replicate room b'0' else [])
            ++ replicate lead b'0'
            ++ backwards tmp
            ++ (if to_left then replicate room b' ' else []))
          ≡ (if to_left
              then sign ++ pre ++ replicate lead b'0' ++ backwards tmp ++ replicate room' b' '
              else if fill
              then sign ++ pre ++ replicate (room' + lead) b'0' ++ backwards tmp
              else replicate room' b' ' ++ sign ++ pre ++ replicate lead b'0' ++ backwards tmp)
    go true true lead room room' e = rw (e, append-nil (sign ++ pre))
    go false true lead room room' e = rw (e, append-nil (sign ++ pre))
    go true false lead room room' e = rw e (
        append-nil (sign ++ pre ++ replicate room' b'0' ++ replicate lead b'0' ++ backwards tmp)
        ∙ ap (λ xs. xs ++ backwards tmp)
            (append_assoc (sign ++ pre) (replicate room' b'0') (replicate lead b'0')
              ∙ ap (λ xs. sign ++ pre ++ xs) (replicate_add room' lead b'0')))
    go false false lead room room' e = rw e (
        append-nil
          (replicate room' b' ' ++ sign ++ pre ++ [] ++ replicate lead b'0' ++ backwards tmp)
        ∙ ap (λ xs. xs ++ replicate lead b'0' ++ backwards tmp)
            (append-nil (replicate room' b' ' ++ sign ++ pre)))

layout-text_of :
    (tmp : List ℕ) (base size precision flags : ℕ)
    → layout tmp base size precision flags ≡ text_of (backwards tmp) base size precision flags
unfolding layout
layout-text_of tmp base size precision flags =
    arrange-picture (has flags zeropad) (has flags left) (sign_of flags) (prefix base flags) tmp
      size precision

-- `number` in a base from 2 to 36 returns for every 32-bit number. It writes sign and prefix, zeros up to
-- `precision` digits, and digits that, read from the left in that base, are the number; and blanks behind
-- these, or before them, or more zeros behind the prefix, as the flags ask. The text is as wide as
-- `size`, or as all but these blanks or zeros needs.
pub number_lem :
    (num base size precision flags : ℕ)
    → 2 ≤ base
    → base ≤ 36
    → num < 2 ^ 32
    → (ds : List ℕ) × (number num base size precision flags
        ≡ done (some (text_of ds base size precision flags)))
      × (read base 0 ds ≡ num)
      × AllDigits (has flags small) base ds
      × (length (text_of ds base size precision flags)
          ≡ max size (front base flags + max (length ds) precision))
unfolding number
number_lem num base size precision flags two most h =
    let a : (ltb base 2 || ltb 36 base) ≡ false = ground arith in
    elim (Bool-cases (num == 0)) [
      | inl q ↦
          written (b'0' ∷ []) (rw (a, q) refl) (omega (arith, (==_iff num 0).0 q))
            ((0, omega arith, zero_digit (has flags small)), tt)
      | inr q ↦
          let (tmp, run, v, _, all) = digits_loop-value (has flags small) base two most 32 num h in
          written tmp (rw (a, q, run) refl) v all
    ]
  where
    zero_digit : (lower : Bool) → b'0' ≡ digit lower 0
    zero_digit true = refl
    zero_digit false = refl

    written :
        (tmp : List ℕ)
        → number num base size precision flags ≡ done (some (layout tmp base size precision flags))
        → value base tmp ≡ num
        → AllDigits (has flags small) base tmp
        → (ds : List ℕ) × (number num base size precision flags
            ≡ done (some (text_of ds base size precision flags)))
          × (read base 0 ds ≡ num)
          × AllDigits (has flags small) base ds
          × (length (text_of ds base size precision flags)
              ≡ max size (front base flags + max (length ds) precision))
    written tmp run v all =
        let same = layout-text_of tmp base size precision flags in
        (
          backwards tmp,
          run ∙ ap (λ x. done (some x)) same,
          read-backwards base tmp ∙ v,
          AllDigits-backwards (has flags small) base tmp all,
          ap length (sym same)
              ∙ length-layout tmp base size precision flags
              ∙ ap (λ n. max size (front base flags + max n precision))
                  (sym (length-backwards tmp)),
        )
