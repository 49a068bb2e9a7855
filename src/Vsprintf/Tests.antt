-- ===== src/Vsprintf/Tests.antt =====
-- Runs of lib/vsprintf.c, and its theorem at a number.
use os_store.Base.{ℕ, ◌+◌, ◌≡◌, refl, max, some, List, [], ◌∷◌, length, done, arith}
use os_store.Vsprintf.{number, skip_atoi}
use os_store.Base.{false}
use os_store.Vsprintf.Digits.{read, text_of, AllDigits, front, number_lem}

-- `%#06x` of 0x2f
hexadecimal :
    number 0x2f 16 6 0 (32 + 1) ≡ done (some (b'0' ∷ b'X' ∷ b'0' ∷ b'0' ∷ b'2' ∷ b'F' ∷ []))
unfolding number
hexadecimal = refl

-- `%+5d` of 42, and `%-4d`
right_adjusted : number 42 10 5 0 4 ≡ done (some (b' ' ∷ b' ' ∷ b'+' ∷ b'4' ∷ b'2' ∷ []))
unfolding number
right_adjusted = refl

left_adjusted : number 42 10 4 0 16 ≡ done (some (b'4' ∷ b'2' ∷ b' ' ∷ b' ' ∷ []))
unfolding number
left_adjusted = refl

width_of_format : skip_atoi (b'1' ∷ b'2' ∷ b'd' ∷ []) ≡ (12, b'd' ∷ [])
unfolding skip_atoi
width_of_format = refl

number_example :
    (ds : List ℕ) × (number 42 10 5 0 4 ≡ done (some (text_of ds 10 5 0 4)))
    × (read 10 0 ds ≡ 42)
    × AllDigits false 10 ds
    × (length (text_of ds 10 5 0 4) ≡ max 5 (front 10 4 + max (length ds) 0))
number_example = number_lem 42 10 5 0 4 (omega arith) (omega arith) (omega arith)
