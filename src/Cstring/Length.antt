-- ===== src/Cstring/Length.antt =====
-- `strlen` of lib/string.c.
use os_store.Base.{ℕ, zero, suc, ◌+◌, ◌≡◌, ◌<◌, List, [], ◌∷◌, length, done, arith}
use os_store.Base.Memory.{Memory, IsStr}
use os_store.Cstring.{end_loop, strlen}

-- given more rounds than characters, the loop ends at the NUL
pub end_loop-done :
    (mem : Memory) (k p : ℕ) (cs : List ℕ)
    → IsStr mem p cs
    → length cs < k
    → end_loop mem k p ≡ done (p + length cs)
unfolding end_loop
end_loop-done mem zero p cs h lt = absurd (omega arith)
end_loop-done mem (suc k) p [] h lt = ground arith
end_loop-done mem (suc k) p (c ∷ cs) h lt = ground (arith, end_loop-done mem k (p + 1) cs)

-- `strlen` of a string returns the number of its characters, given more fuel than that.
pub strlen-length :
    (mem : Memory) (fuel p : ℕ) (cs : List ℕ)
    → IsStr mem p cs
    → length cs < fuel
    → strlen mem fuel p ≡ done (length cs)
unfolding strlen
strlen-length mem fuel p cs h lt = ground (arith, end_loop-done mem fuel p cs)
