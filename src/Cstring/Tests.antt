-- ===== src/Cstring/Tests.antt =====
-- Runs of lib/string.c, and its theorems at small memories.
use os_store.Base.{
  ℕ, ◌+◌, ◌≡◌, ◌≢◌, ◌<◌, ◌↔◌, refl, false, ◌&&◌, List, [], ◌∷◌, ltb, leb, ◌==◌, if◌then◌else◌, some,
  get_or, take, done, fault, arith,
}
use os_store.Base.Memory.{Memory, IsStr}
use os_store.Base.Int.{pos, negsuc}
use os_store.Cstring.{strlen, strncpy, strrchr, memcmp, memset, memchr, order}
use os_store.Cstring.Length.{strlen-length}
use os_store.Cstring.Copy.{memset_lem}
use os_store.Cstring.Bounded.{strncpy_lem}
use os_store.Cstring.Compare.{compare_strings, compare_strings-zero, SameBytes, memcmp_lem}

-- "abca" at 0, "abd" at 8, zeros elsewhere
abbrev mem : Memory
mem a = get_or (0x61 ∷ 0x62 ∷ 0x63 ∷ 0x61 ∷ 0 ∷ 0 ∷ 0 ∷ 0 ∷ 0x61 ∷ 0x62 ∷ 0x64 ∷ []) a 0

abbrev abca : List ℕ
abca = 0x61 ∷ 0x62 ∷ 0x63 ∷ 0x61 ∷ []

abbrev abd : List ℕ
abd = 0x61 ∷ 0x62 ∷ 0x64 ∷ []

strrchr_run : strrchr mem 9 0 0x61 ≡ done (some 3)
unfolding strrchr
strrchr_run = refl

memchr_missing : memchr mem 0 0x7a 4 ≡ fault
unfolding memchr
memchr_missing = refl

-- "abc" and "abd" differ in the last of their three bytes
memcmp_last : memcmp mem 0 8 3 ≡ pos 0
unfolding memcmp
memcmp_last = refl

-- "ab" and "ab" are equal, and the bytes behind them are not
memcmp_equal : memcmp mem 0 8 2 ≡ negsuc 0
unfolding memcmp
memcmp_equal = refl

strlen-length_example : strlen mem 9 0 ≡ done 4
strlen-length_example = strlen-length mem 9 0 abca (omega arith) (omega arith)

memset_example : memset 2 0x141 3 mem 4 ≡ (if leb 2 4 && ltb 4 5 then 0x41 else mem 4)
memset_example = memset_lem 2 0x141 3 mem 4

strncpy_example :
    IsStr (strncpy 20 0 3 mem) 20 (take 2 abca)
    × ((a : ℕ) → (leb 20 a && ltb a 23) ≡ false → strncpy 20 0 3 mem a ≡ mem a)
strncpy_example = strncpy_lem 20 0 3 mem abca (omega arith) (omega arith) (omega arith)

compare_strings-zero_example : (compare_strings abca abd ≡ pos 0) ↔ (abca ≡ abd)
compare_strings-zero_example = compare_strings-zero abca abd (omega arith) (omega arith)

memcmp_example :
    ((i : ℕ)
      → i < 3
      → SameBytes mem 0 8 i
      → mem (0 + i) ≢ mem (8 + i)
      → memcmp mem 0 8 3 ≡ (if i + 1 == 3 then pos 0 else order (mem (0 + i)) (mem (8 + i))))
    × (SameBytes mem 0 8 3 → memcmp mem 0 8 3 ≡ order (mem 3) (mem 11))
memcmp_example = memcmp_lem mem 0 8 3 (omega arith)
