-- ===== src/Pages/Kernel.antt =====
-- alloc_kpage and free_kpage of kernel/memory.c.
use mathlib.Core.Path.{subst}
use os_store.Base.{
  ℕ, zero, suc, ◌+◌, ◌-◌, ◌*◌, ◌/◌, ◌%◌, ◌^◌, ◌<◌, ◌≤◌, ◌≡◌, refl, sym, ap, ◌∙◌, true, false,
  Option, ltb, leb, ◌&&◌, if◌then◌else◌, arith, Outcome, done, panic, Bool-cases, inl, inr,
}
use os_store.Bitmap.{Bitmap, bitmap_scan}
use os_store.Bitmap.Bits.{IsValid, bit, put, put-IsValid, bit-put, bitmap_test_lem, bitmap_set-put}
use os_store.Bitmap.{bitmap_test}
use os_store.Bitmap.Scan.{Free, NoRun, Found, full, first, Marked, bitmap_scan-Found, size_put}
use os_store.Pages.{Pages, alloc_kpage, free_kpage, scan_page, reset_page, reset_loop}

test_next :
    (map : Bitmap) (next : ℕ)
    → IsValid map
    → next < map.length * 8
    → bitmap_test map (map.offset + next) ≡ done (bit map.bits next)
test_next map next ok h =
    let f : map.offset + next - map.offset ≡ next = omega arith in
    rw (bitmap_test_lem map (map.offset + next) ok, f) (ground arith)

-- `m` is `map` with the bits from `next` to `next + k` clear
record Cleared (map : Bitmap) (next k : ℕ) (m : Bitmap) : Type 0 where
  pub valid : IsValid m
  pub clear :
      (j : ℕ) → bit m.bits j ≡ (if leb next j && ltb j (next + k) then false else bit map.bits j)

reset_loop-Cleared :
    (map : Bitmap) (k next : ℕ)
    → IsValid map
    → next + k ≤ map.length * 8
    → ((j : ℕ) → next ≤ j → j < next + k → bit map.bits j ≡ true)
    → (m : Bitmap) × (reset_loop k (map.offset + next) map ≡ done m) × Cleared map next k m
unfolding reset_loop
reset_loop-Cleared map zero next ok h set =
    (map, refl, record { valid = ok; clear = λ j. ground arith })
reset_loop-Cleared map (suc k) next ok h used =
    let size = size_put map next false in
    let (m, run, r) =
      reset_loop-Cleared (put map next false) k (next + 1) (put-IsValid next false ok)
        (omega (arith, size.0)) (λ j lo hi. ground (arith, bit-put next j false ok, used j)) in
    (
      m,
      step map k next ok h (used next (omega arith) (omega arith)) ∙ run,
      record { valid = r.valid; clear = λ j. ground (arith, r.clear j, bit-put next j false ok) },
    )
  where
    step :
        (map : Bitmap) (k next : ℕ)
        → IsValid map
        → next + suc k ≤ map.length * 8
        → bit map.bits next ≡ true
        → reset_loop (suc k) (map.offset + next) map
          ≡ reset_loop k ((put map next false).offset + (next + 1)) (put map next false)
    step map k next ok h u =
        let e : bitmap_test map (map.offset + next) ≡ done true =
          test_next map next ok (omega arith) ∙ ap done u in
        let f : (put map next false).offset + (next + 1) ≡ map.offset + next + 1 =
          omega (arith, (size_put map next false).1) in
        rw (e, bitmap_set-put next false ok (omega arith), f)

-- What `alloc_kpage` does: with no run of free pages it panics, and otherwise it returns the address of
-- the first page of a free run, whose pages are then in use.
pub data Kernel (count : ℕ) (s : Pages) : Outcome (ℕ × Pages) → Type 0 where
  no_run : NoRun s.kernel_map.bits count (s.kernel_map.length * 8) → Kernel count s panic
  run :
      (start : ℕ) (s' : Pages)
      → start + count ≤ s.kernel_map.length * 8
      → Free s.kernel_map.bits start count
      → Marked s.kernel_map start count s'.kernel_map
      → Kernel count s (done ((start + s.kernel_map.offset) * 2 ^ 12, s'))

-- `alloc_kpage` of at least one page returns or panics. It panics exactly when the map has no run of
-- `count` free pages, and otherwise takes a free run: its pages are set in the map and no other.
pub alloc_kpage-Kernel :
    (count : ℕ) (s : Pages)
    → 0 < count
    → IsValid s.kernel_map
    → s.kernel_map.offset + s.kernel_map.length * 8 < 2 ^ 20
    → Kernel count s (alloc_kpage count s)
unfolding alloc_kpage scan_page
alloc_kpage-Kernel count s pos ok word = split (bitmap_scan-Found s.kernel_map count ok pos)
  where
    split :
        (r : Option ℕ × Bitmap) × (bitmap_scan s.kernel_map count ≡ done r)
          × Found s.kernel_map count r
        → Kernel count s (alloc_kpage count s)
    split (_, e, full none_yet) =
        let z : ltb 0 count ≡ true = ground arith in rw (z, e) (no_run none_yet)
    split (_, e, first start m fits free before marked) =
        let z : ltb 0 count ≡ true = ground arith in
        let a : (start + s.kernel_map.offset) * 2 ^ 12 % 2 ^ 32
            ≡ (start + s.kernel_map.offset) * 2 ^ 12 =
          omega arith in
        rw (z, e, a) (run start (record s { kernel_map = m }) fits free marked)

free_kpage-Marked :
    (map m : Bitmap) (start count : ℕ) (s' : Pages)
    → s'.kernel_map ≡ m
    → 0 < count
    → start + count ≤ map.length * 8
    → map.offset + map.length * 8 < 2 ^ 20
    → Free map.bits start count
    → Marked map start count m
    → (s'' : Pages) × (free_kpage ((start + map.offset) * 2 ^ 12) count s' ≡ done s'')
      × IsValid s''.kernel_map
      × ((j : ℕ) → bit s''.kernel_map.bits j ≡ bit map.bits j)
unfolding free_kpage reset_page
free_kpage-Marked map m start count s' same pos fits word free r =
    let (m', run', c) =
      reset_loop-Cleared m count start r.valid (omega (arith, r.size))
        (λ j lo hi. ground (arith, r.marked j)) in
    let z : ltb 0 count ≡ true = ground arith in
    let a : (start + map.offset) * 2 ^ 12 % 2 ^ 12 ≡ 0 = omega arith in
    let b : (start + map.offset) * 2 ^ 12 / 2 ^ 12 ≡ m.offset + start = omega (arith, r.origin) in
    (
      record s' { kernel_map = m' },
      rw (z, a, b, same, run'),
      c.valid,
      λ j. elim (Bool-cases (leb start j && ltb j (start + count))) [
        | inl q ↦
            let f : start + (j - start) ≡ j = ground arith in
            let g : bit map.bits j ≡ false =
              ap (bit map.bits) (sym f) ∙ free (j - start) (ground arith) in
            ground (arith, c.clear j, q, g)
        | inr q ↦ ground (arith, c.clear j, r.marked j, q)
      ],
    )

-- Pages that `alloc_kpage` returned can be given to `free_kpage`, which returns, and then every bit of the
-- kernel's map is as before both calls.
pub free_kpage-alloc_kpage :
    (count addr : ℕ) (s s' : Pages)
    → 0 < count
    → IsValid s.kernel_map
    → s.kernel_map.offset + s.kernel_map.length * 8 < 2 ^ 20
    → alloc_kpage count s ≡ done (addr, s')
    → (s'' : Pages) × (free_kpage addr count s' ≡ done s'')
      × IsValid s''.kernel_map
      × ((j : ℕ) → bit s''.kernel_map.bits j ≡ bit s.kernel_map.bits j)
free_kpage-alloc_kpage count addr s s' pos ok word e =
    back (subst (Kernel count s) e (alloc_kpage-Kernel count s pos ok word))
  where
    back :
        {addr : ℕ} {s' : Pages}
        → Kernel count s (done (addr, s'))
        → (s'' : Pages) × (free_kpage addr count s' ≡ done s'')
          × IsValid s''.kernel_map
          × ((j : ℕ) → bit s''.kernel_map.bits j ≡ bit s.kernel_map.bits j)
    back {s' = s'} (run start _ fits free marked) =
        free_kpage-Marked s.kernel_map s'.kernel_map start count s' refl pos fits word free marked
