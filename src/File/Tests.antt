-- ===== src/File/Tests.antt =====
-- Runs of fs/file.c, and its theorem at an open file.
use os_store.Base.{ℕ, ◌^◌, ◌-◌, ◌≡◌, refl, ap, Option, none, some, [], ◌∷◌, done, arith, ◌>>=◌}
use os_store.File.{File, Whence, seek_end, sys_lseek, get_file, put_file, file_init}
use os_store.File.Offset.{sys_lseek_lem}

abbrev opened : File
opened = record { inode = some 4; count = 1; offset = 10; flags = 0; mode = 0 }

-- three bytes before the end of a file of 100
sys_lseek_example :
    sys_lseek (λ _. 100) (none ∷ some 1 ∷ []) 1 (2 ^ 32 - 3) seek_end (opened ∷ opened ∷ [])
    ≡ done (97, opened ∷ record opened { offset = 97 } ∷ [])
sys_lseek_example =
    sys_lseek_lem (λ _. 100) (none ∷ some 1 ∷ []) 1 (2 ^ 32 - 3) 1 4 seek_end (opened ∷ opened ∷ [])
      opened (omega arith) (omega arith) refl refl refl defined
  where
    code : Whence → ℕ
    code seek_end = 1
    code _ = 0

    defined : seek_end ≡ Whence.undefined → ⊥
    defined e = ground (arith, ap code e)

-- an offset before the start of the file
before_start :
    sys_lseek (λ _. 0) (some 0 ∷ []) 0 (2 ^ 32 - 1) seek_end (opened ∷ [])
    ≡ done (2 ^ 32 - 1, record opened { offset = 2 ^ 32 - 1 } ∷ [])
unfolding sys_lseek
before_start = refl

taken_and_put :
    ◌>>=◌ {B = Option ℕ}
      (get_file file_init)
      (λ (i, table). put_file i table >>= λ (nr, _). done nr)
    ≡ done none
unfolding get_file put_file file_init
taken_and_put = refl
