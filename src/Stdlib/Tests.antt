-- ===== src/Stdlib/Tests.antt =====
-- Runs of lib/stdlib.c, and its theorems at concrete inputs.
use os_store.Base.{◌≡◌, refl, [], ◌∷◌, get_or, done}
use os_store.Base.Memory.{Memory}
use os_store.Stdlib.{atoi}

-- "42" at 1, "-42" at 8
abbrev mem : Memory
mem a = get_or (0 ∷ b'4' ∷ b'2' ∷ 0 ∷ 0 ∷ 0 ∷ 0 ∷ 0 ∷ b'-' ∷ b'4' ∷ b'2' ∷ []) a 0

atoi_minus : atoi mem 9 8 ≡ done 42
unfolding atoi
atoi_minus = refl
