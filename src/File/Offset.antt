-- ===== src/File/Offset.antt =====
-- The offset that sys_lseek of fs/file.c sets.
use os_store.Base.{
  ℕ, ◌+◌, ◌%◌, ◌^◌, ◌<◌, ◌≡◌, refl, not, ◌&&◌, Bool, true, false, Option, some, List, get_elem?,
  set, arith, done, panic, ltb, if◌then◌else◌,
}
use os_store.Base.Int.{int_lt}
use os_store.File.{File, Whence, seek_set, seek_cur, seek_end, undefined, seek, sys_lseek}

-- where a seek counts from
abbrev pub start_of : Whence → (size : ℕ) → File → ℕ
start_of seek_set size file = 0
start_of seek_cur size file = file.offset
start_of seek_end size file = size
start_of undefined size file = 0

abbrev pub checked : Whence → Bool
checked seek_end = false
checked _ = true

seek_lem :
    (whence : Whence) (size offset : ℕ) (file : File)
    → offset < 2 ^ 32
    → (whence ≡ undefined → ⊥)
    → seek whence size offset file ≡ (
        if checked whence && not (ltb ((start_of whence size file + offset) % 2 ^ 32) (2 ^ 31))
        then panic
        else done ((start_of whence size file + offset) % 2 ^ 32))
unfolding seek
seek_lem seek_set size offset file h d =
    let e : (0 + offset) % 2 ^ 32 ≡ offset = omega arith in ground (arith, e)
seek_lem seek_cur size offset file h d = ground arith
seek_lem seek_end size offset file h d = refl
seek_lem undefined size offset file h d = absurd (d refl)

-- `sys_lseek` on an open file with a defined `whence` moves the offset to its start plus `offset`, in 32 bits,
-- returns it and changes no other file. A result below 0 panics for SEEK_SET and SEEK_CUR; for SEEK_END it is
-- set all the same.
pub sys_lseek_lem :
    (size : ℕ → ℕ) (files : List (Option ℕ)) (fd offset i nr : ℕ) (whence : Whence)
    (table : List File) (file : File)
    → fd < 16
    → offset < 2 ^ 32
    → get_elem? files fd ≡ some (some i)
    → get_elem? table i ≡ some file
    → file.inode ≡ some nr
    → (whence ≡ undefined → ⊥)
    → sys_lseek size files fd offset whence table ≡ (
        let o = (start_of whence (size nr) file + offset) % 2 ^ 32 in
        if checked whence && not (ltb o (2 ^ 31))
        then panic
        else done (o, set table i (record file { offset = o })))
unfolding sys_lseek
sys_lseek_lem size files fd offset i nr whence table file lt h e f n d =
    let z : int_lt fd 16 ≡ true = ground arith in
    ground (arith, z, e, f, n, seek_lem whence (size nr) offset file h d)
