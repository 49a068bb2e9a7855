-- ===== src/Namei.antt =====
-- fs/namei.c, without the disk: permissions, the parts of a path name, the comparison with the name of a
-- directory entry, and the path of the working directory. Memory is flat, and a loop that runs to a NUL
-- takes fuel.
pub mod Names
pub mod Parent
mod Tests
use os_store.Base.{
  ℕ, zero, suc, ◌+◌, ◌-◌, ◌/◌, ◌%◌, ◌^◌, bit_and, Bool, true, false, not, ◌&&◌, ◌||◌, Option, none,
  some, ltb, ◌==◌, ◌!=◌, if◌then◌else◌, Outcome, done, fault, hung, ◌>>=◌,
}
use os_store.Base.Memory.{Memory, write}
use os_store.Base.Int.{ℤ, pos, negsuc}
use os_store.Task.{kernel_user}
use os_store.Cstring.{strcmp, strcpy, strncpy, strlen, memcmp}

-- the fields of an `inode_desc_t` that permissions depend on
pub record InodeDesc : Type 0 where
  pub mode : ℕ
  pub uid : ℕ
  pub gid : ℕ
  pub nlinks : ℕ

-- the running task's user and group are `uid` and `gid`
unfoldable pub permission : (uid gid : ℕ) → InodeDesc → (mask : ℕ) → Bool
permission uid gid desc mask =
    if desc.nlinks == 0
    then false
    else if uid == kernel_user
    then true
    else let mode =
        if uid == desc.uid
        then desc.mode / 2 ^ 6
        else if gid == desc.gid
        then desc.mode / 2 ^ 3
        else desc.mode in
      bit_and (bit_and mode mask) 7 == mask

-- `IS_SEPARATOR`
abbrev pub is_separator : ℕ → Bool
is_separator c = c == 47 || c == 92

unfoldable pub strsep : Memory → (fuel str : ℕ) → Outcome (Option ℕ)
strsep mem zero ptr = hung
strsep mem (suc k) ptr = elim (is_separator (mem ptr)) [
  | true ↦ done (some ptr)
  | false ↦ elim (mem ptr == 0) [ true ↦ done none | false ↦ strsep mem k (ptr + 1) ]
]

unfoldable pub strrsep_loop : Memory → (fuel ptr : ℕ) → Option ℕ → Outcome (Option ℕ)
strrsep_loop mem zero ptr last = hung
strrsep_loop mem (suc k) ptr last =
    let last' = if is_separator (mem ptr) then some ptr else last in
    elim (mem ptr == 0) [ true ↦ done last' | false ↦ strrsep_loop mem k (ptr + 1) last' ]

unfoldable pub strrsep : Memory → (fuel str : ℕ) → Outcome (Option ℕ)
unfolding strrsep_loop
strrsep mem fuel str = strrsep_loop mem fuel str none

-- the loop of `match_name`: both pointers where it stops
unfoldable pub match_loop : Memory → (fuel lhs rhs : ℕ) → Outcome (ℕ × ℕ)
match_loop mem zero lhs rhs = hung
match_loop mem (suc k) lhs rhs = elim (mem lhs == mem rhs && mem lhs != 0 && mem rhs != 0) [
  | true ↦ match_loop mem k (lhs + 1) (rhs + 1)
  | false ↦ done (lhs, rhs)
]

-- `none` is `false`, and `some next` is `true` with what is written to `*next`
abbrev pub match_end : Memory → ℕ × ℕ → Option ℕ
match_end mem (lhs, rhs) =
    if mem rhs != 0
    then none
    else if mem lhs != 0 && not (is_separator (mem lhs))
    then none
    else some (if is_separator (mem lhs) then lhs + 1 else lhs)

unfoldable pub match_name : Memory → (fuel name entry_name : ℕ) → Outcome (Option ℕ)
unfolding match_loop
match_name mem fuel name entry_name =
    match_loop mem fuel name entry_name >>= λ p. done (match_end mem p)

-- `strrsep(pwd) + 1`; without a separator the code goes on with the address 1
abbrev pub behind : Option ℕ → Outcome ℕ
behind none = fault
behind (some p) = done (p + 1)

-- one name up: `cur` and memory
unfoldable pub up : (fuel pwd cur : ℕ) → Memory → Outcome (ℕ × Memory)
unfolding strrsep
up fuel pwd cur mem = elim (cur - 1 == pwd) [
  | true ↦ done (cur, mem)
  | false ↦ do
    let mem1 = write mem (cur - 1) 0
    last ← strrsep mem1 fuel pwd
    cur' ← behind last
    done (cur', write mem1 cur' 0)
]

-- is the difference that a comparison returns 0?
abbrev pub is_zero : ℤ → Bool
is_zero (pos zero) = true
is_zero _ = false

-- The addresses of the literals "./", "../", "." and "..".
pub record Literals : Type 0 where
  pub dot_slash : ℕ
  pub dots_slash : ℕ
  pub dot : ℕ
  pub dots : ℕ

-- the loop of `abspath`, on fuel, that serves the strings as well: `pathname`, `cur` and memory
unfoldable pub abspath_loop :
    Literals → (rounds fuel pwd pathname cur : ℕ) → Memory → Outcome (ℕ × ℕ × Memory)
unfolding strsep up
abspath_loop lit zero fuel pwd pathname cur mem = hung
abspath_loop lit (suc k) fuel pwd pathname cur mem = elim (mem pathname == 0) [
  | true ↦ done (pathname, cur, mem)
  | false ↦ strsep mem fuel pathname >>= λ sep. elim sep [
    | none ↦ done (pathname, cur, mem)
    | some ptr ↦
        let len = ptr - pathname + 1 in
        let mem1 = write mem ptr 47 in
        elim (is_zero (memcmp mem1 pathname lit.dot_slash 2)) [
          | true ↦ abspath_loop lit k fuel pwd (pathname + len) cur mem1
          | false ↦ elim (is_zero (memcmp mem1 pathname lit.dots_slash 3)) [
            | true ↦ up fuel pwd cur mem1 >>= λ (cur', mem2).
                abspath_loop lit k fuel pwd (pathname + len) cur' mem2
            | false ↦
                abspath_loop lit k fuel pwd (pathname + len) (cur + len)
                  (strncpy cur pathname (len + 1) mem1)
          ]
        ]
  ]
]

-- where `cur` starts in the old path, and what is left of `pathname`
unfoldable pub abspath_start : (fuel pwd pathname : ℕ) → Memory → Outcome (ℕ × ℕ)
unfolding strrsep
abspath_start fuel pwd pathname mem = elim (is_separator (mem pathname)) [
  | true ↦ done (pathname + 1, pwd + 1)
  | false ↦ strrsep mem fuel pwd >>= λ last. behind last >>= λ cur. done (pathname, cur)
]

-- what is done with the part behind the last separator
unfoldable pub abspath_end : Literals → (fuel pwd : ℕ) → ℕ × ℕ × Memory → Outcome Memory
unfolding up
abspath_end lit fuel pwd (pathname, cur, mem) = elim (mem pathname == 0) [
  | true ↦ done mem
  | false ↦ strcmp mem fuel pathname lit.dot >>= λ here. elim (is_zero here) [
    | true ↦ done mem
    | false ↦ strcmp mem fuel pathname lit.dots >>= λ there. elim (is_zero there) [
      | true ↦ up fuel pwd cur mem >>= λ (_, mem'). done mem'
      | false ↦ do
        mem' ← strcpy fuel cur pathname mem
        n ← strlen mem' fuel pathname
        done (write mem' (cur + n) 47)
    ]
  ]
]

unfoldable pub abspath : Literals → (fuel pwd pathname : ℕ) → Memory → Outcome Memory
unfolding abspath_start abspath_loop abspath_end
abspath lit fuel pwd pathname mem = abspath_start fuel pwd pathname mem >>= λ (path, cur).
    abspath_loop lit fuel fuel pwd path cur (write mem cur 0) >>= λ s. abspath_end lit fuel pwd s
