-- ===== src/File.antt =====
-- fs/file.c: the table of open files. Reading, writing and opening go through inodes and devices and are
-- not modelled; an inode is its number, and its size an argument.
pub mod Offset
mod Tests
use os_store.Base.{
  ℕ, zero, suc, ◌+◌, ◌-◌, ◌%◌, ◌^◌, Bool, true, false, Option, none, some, List, [], ◌∷◌, ltb, ◌==◌,
  if◌then◌else◌, set, replicate, Outcome, done, panic, fault, ◌>>=◌, ◌>>◌, assert, load,
}
-- `offset` is the 32 bits of an `int32`
use os_store.Base.Int.{int_lt}

pub record File : Type 0 where
  pub inode : Option ℕ
  pub count : ℕ
  pub offset : ℕ
  pub flags : ℕ
  pub mode : ℕ

abbrev pub file_nr : ℕ
file_nr = 128

unfoldable pub file_init : List File
file_init = replicate file_nr (record { inode = none; count = 0; offset = 0; flags = 0; mode = 0 })

-- the loop of `get_file` over the files from number `i` on
unfoldable pub file_loop : (i : ℕ) → List File → Outcome (ℕ × List File)
file_loop i [] = panic
file_loop i (file ∷ table) = elim (file.count == 0) [
  | true ↦ done (i, record file { count = file.count + 1 } ∷ table)
  | false ↦ file_loop (i + 1) table >>= λ (j, table'). done (j, file ∷ table')
]

-- `get_file`: the first three entries are passed over
unfoldable pub get_file : List File → Outcome (ℕ × List File)
unfolding file_loop
get_file (a ∷ b ∷ c ∷ table) = file_loop 3 table >>= λ (i, table'). done (i, a ∷ b ∷ c ∷ table')
get_file _ = fault

-- `put_file`: the table, and the inode given to `iput` when the last reference goes
unfoldable pub put_file : ℕ → List File → Outcome (Option ℕ × List File)
put_file i table = do
  file ← load table i
  assert (ltb 0 file.count)
  let file' = record file { count = file.count - 1 }
  done (if file'.count == 0 then file.inode else none, set table i file')

pub data Whence : Type 0 where
  seek_set : Whence
  seek_cur : Whence
  seek_end : Whence
  undefined : Whence

-- `x >= 0` for an `int32`
abbrev pub not_negative : ℕ → Bool
not_negative x = ltb x (2 ^ 31)

-- the `switch` of `sys_lseek`: the new offset. With SEEK_END the sum is unsigned, as `size` is a `u32`,
-- and the assertion holds.
unfoldable pub seek : Whence → (size offset : ℕ) → File → Outcome ℕ
seek seek_set size offset file = assert (not_negative offset) >> done offset
seek seek_cur size offset file =
    assert (not_negative ((file.offset + offset) % 2 ^ 32))
    >> done ((file.offset + offset) % 2 ^ 32)
seek seek_end size offset file = done ((size + offset) % 2 ^ 32)
seek undefined size offset file = panic

-- `sys_lseek`, with the files of the running task and the sizes of the inodes; `fd` and
-- `offset` are the 32 bits of an `int`. A negative `fd` passes the assertion and is outside the array
unfoldable pub sys_lseek :
    (size : ℕ → ℕ) (files : List (Option ℕ))
    → (fd offset : ℕ) → Whence
    → List File
    → Outcome (ℕ × List File)
unfolding seek
sys_lseek size files fd offset whence table = do
  assert (int_lt fd 16)
  entry ← load files fd
  elim entry [
    | none ↦ panic
    | some i ↦ load table i >>= λ file. elim file.inode [
      | none ↦ panic
      | some nr ↦ seek whence (size nr) offset file >>= λ o.
          done (o, set table i (record file { offset = o }))
    ]
  ]
