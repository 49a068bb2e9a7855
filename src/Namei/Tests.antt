-- ===== src/Namei/Tests.antt =====
-- Runs of fs/namei.c, and its theorems at concrete paths.
use os_store.Base.{ℕ, suc, ◌≢◌, ◌+◌, ◌≡◌, refl, true, some, done, ◌>>=◌, List, [], ◌∷◌, zero, arith}
use os_store.Base.Memory.{Memory, IsStr, write}
use os_store.Cstring.{strcmp, strcpy, strncpy, strlen, memcmp}
use os_store.Namei.{
  permission, strsep, strrsep, strrsep_loop, match_name, up, Literals, abspath, abspath_start,
  abspath_loop, abspath_end,
}
use os_store.Namei.Names.{match_name-same}
use os_store.Namei.Parent.{abspath-parent}

-- a text put into memory
abbrev text : ℕ → List ℕ → Memory → Memory
text p [] mem = write mem p 0
text p (c ∷ cs) mem = write (text (p + 1) cs mem) p c

abbrev bytes : ℕ → ℕ → Memory → List ℕ
bytes p zero mem = []
bytes p (suc n) mem = mem p ∷ bytes (p + 1) n mem

abbrev literals : Literals
literals = record { dot_slash = 300; dots_slash = 310; dot = 320; dots = 330 }

abbrev constants : Memory
constants =
    text 300 (46 ∷ 47 ∷ [])
      (text 310 (46 ∷ 46 ∷ 47 ∷ []) (text 320 (46 ∷ []) (text 330 (46 ∷ 46 ∷ []) (λ _. 0))))

-- the working directory "/ab/cd/" at 100, and a path at 200
abbrev at_home : List ℕ → Memory
at_home path = text 100 (47 ∷ 97 ∷ 98 ∷ 47 ∷ 99 ∷ 100 ∷ 47 ∷ []) (text 200 path constants)

home : (path : List ℕ) → IsStr (at_home path) 100 (47 ∷ 97 ∷ 98 ∷ 47 ∷ 99 ∷ 100 ∷ 47 ∷ [])
home path = (refl, n, (refl, n, (refl, n, (refl, n, (refl, n, (refl, n, (refl, n, refl)))))))
  where
    n : {c : ℕ} → suc c ≢ 0
    n e = ground (arith, e)

-- A change to "/x" leaves "/x//cd/", since no NUL is written behind the last separator.
abspath-absolute :
    abspath literals 20 100 200 (at_home (47 ∷ 120 ∷ [])) >>= (λ g. done (bytes 100 8 g))
    ≡ done (47 ∷ 120 ∷ 47 ∷ 47 ∷ 99 ∷ 100 ∷ 47 ∷ 0 ∷ [])
unfolding abspath abspath_start abspath_loop abspath_end strrsep strrsep_loop strsep strcmp strcpy
    strlen up memcmp strncpy
abspath-absolute = refl

-- A change to "../x" leaves "/ab/cd/x/", since `memcmp` takes "../" for "./".
abspath-above :
    abspath literals 20 100 200 (at_home (46 ∷ 46 ∷ 47 ∷ 120 ∷ [])) >>= (λ g. done (bytes 100 10 g))
    ≡ done (47 ∷ 97 ∷ 98 ∷ 47 ∷ 99 ∷ 100 ∷ 47 ∷ 120 ∷ 47 ∷ 0 ∷ [])
unfolding abspath abspath_start abspath_loop abspath_end strrsep strrsep_loop strsep strcmp strcpy
    strlen up memcmp strncpy
abspath-above = refl

-- So does a change to ".x/y" leave "/ab/cd/y/".
abspath-hidden :
    abspath literals 20 100 200 (at_home (46 ∷ 120 ∷ 47 ∷ 121 ∷ []))
      >>= (λ g. done (bytes 100 10 g))
    ≡ done (47 ∷ 97 ∷ 98 ∷ 47 ∷ 99 ∷ 100 ∷ 47 ∷ 121 ∷ 47 ∷ 0 ∷ [])
unfolding abspath abspath_start abspath_loop abspath_end strrsep strrsep_loop strsep strcmp strcpy
    strlen up memcmp strncpy
abspath-hidden = refl

abspath-parent_example :
    (g : Memory) × (abspath literals 20 100 200 (at_home (46 ∷ 46 ∷ [])) ≡ done g)
    × IsStr g 100 (47 ∷ 97 ∷ 98 ∷ 47 ∷ [])
abspath-parent_example =
    abspath-parent literals 20 100 200 (at_home (46 ∷ 46 ∷ [])) (47 ∷ 97 ∷ 98 ∷ []) 47
      (99 ∷ 100 ∷ []) 47 (home (46 ∷ 46 ∷ [])) refl (refl, (refl, tt)) refl
      (refl, (λ e. ground (arith, e)), (refl, (λ e. ground (arith, e)), refl))
      (refl, (λ e. ground (arith, e)), refl)
      (refl, (λ e. ground (arith, e)), (refl, (λ e. ground (arith, e)), refl)) (omega arith)

-- "ab/c" against the entry "ab"
match_name-same_example :
    match_name (text 400 (97 ∷ 98 ∷ 47 ∷ 99 ∷ []) (text 500 (97 ∷ 98 ∷ []) (λ _. 0))) 5 400 500
    ≡ done (some 403)
match_name-same_example =
    match_name-same (text 400 (97 ∷ 98 ∷ 47 ∷ 99 ∷ []) (text 500 (97 ∷ 98 ∷ []) (λ _. 0))) 5 400 500
      (97 ∷ 98 ∷ 47 ∷ 99 ∷ []) (97 ∷ 98 ∷ [])
      (
        refl,
        (λ e. ground (arith, e)),
        (
          refl,
          (λ e. ground (arith, e)),
          (refl, (λ e. ground (arith, e)), (refl, (λ e. ground (arith, e)), refl)),
        ),
      )
      (refl, (λ e. ground (arith, e)), (refl, (λ e. ground (arith, e)), refl)) (refl, (refl, tt))
      (omega arith)

-- A mask of 0, with which `inode_open` opens a file for reading, passes whatever the mode is.
permission-nothing :
    permission 1000 1000 (record { mode = 0; uid = 1; gid = 1; nlinks = 1 }) 0 ≡ true
unfolding permission
permission-nothing = refl

permission-group : permission 1000 5 (record { mode = 32; uid = 1; gid = 5; nlinks = 1 }) 4 ≡ true
unfolding permission
permission-group = refl
