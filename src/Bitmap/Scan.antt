-- ===== src/Bitmap/Scan.antt =====
-- `bitmap_scan`: the first run of `count` clear bits is found, set, and nothing else changes.
use os_store.Base.{
  ℕ, zero, suc, ◌+◌, ◌-◌, ◌*◌, ◌%◌, ◌^◌, ◌≤◌, ◌<◌, ◌≡◌, refl, ◌∙◌, Bool, true, false, Option, none,
  some, List, ltb, leb, ◌&&◌, if◌then◌else◌, Outcome, done, arith, Bool-cases, inl, inr,
}
use mathlib.Core.Path.{subst, sym}
use mathlib.Core.Logic.{◌≢◌}
use native.Mathlib.Decide.{ℕ_discrete}
use os_store.Bitmap.{Bitmap, bitmap_test, bitmap_scan, scan_loop, mark_loop}
use os_store.Bitmap.Bits.{IsValid, bit, put, put-IsValid, bit-put, bitmap_test_lem, bitmap_set-put}

-- the `n` bits from `s` on are clear
abbrev pub Free : List ℕ → ℕ → ℕ → Type 0
Free bits s n = (j : ℕ) → j < n → bit bits (s + j) ≡ false

-- no `count` clear bits lie within the first `n`
abbrev pub NoRun : List ℕ → ℕ → ℕ → Type 0
NoRun bits count n = (s : ℕ) → s + count ≤ n → Free bits s count → ⊥

-- where the first loop stands: `counter` clear bits end at `next`, behind a bit that is set
record Passed (bits : List ℕ) (count next counter : ℕ) : Type 0 where
  few : counter < count
  back : counter ≤ next
  clear : Free bits (next - counter) counter
  stop : counter < next → bit bits (next - counter - 1) ≡ true
  none_yet : NoRun bits count next

module _ (bits : List ℕ) (count next counter : ℕ) (p : Passed bits count next counter) where
  Passed-used : bit bits next ≡ true → Passed bits count (next + 1) 0
  Passed-used used = record {
    few = omega (arith, p.few);
    back = omega arith;
    clear = λ j h. elim h [ ];
    stop = λ _. let e : next + 1 - 0 - 1 ≡ next = omega arith in rw e used;
    none_yet = λ s h free. elim (ℕ_discrete (s + count) (next + 1)) [
      | yes e ↦
          let f : bit bits (s + (next - s)) ≡ false = free (next - s) (omega (arith, p.few)) in
          let g : s + (next - s) ≡ next = omega (arith, p.few) in
          let f' : bit bits next ≡ false = rw g at f in cc
      | no ne ↦ p.none_yet s (omega arith) free
    ];
  }

  Free-next : bit bits next ≡ false → Free bits (next + 1 - (counter + 1)) (counter + 1)
  Free-next free j h = elim (ℕ_discrete j counter) [
    | yes e ↦ let g : next + 1 - (counter + 1) + j ≡ next = omega (arith, p.back) in rw g free
    | no ne ↦
        let g : next + 1 - (counter + 1) + j ≡ next - counter + j = omega (arith, p.back) in
        rw g (p.clear j (omega arith))
  ]

  NoRun-next : counter + 1 < count → NoRun bits count (next + 1)
  NoRun-next lt s h free = elim (ℕ_discrete (s + count) (next + 1)) [
    | yes e ↦
        let g : s + (next - counter - 1 - s) ≡ next - counter - 1 = omega (arith, p.back) in
        let f : bit bits (s + (next - counter - 1 - s)) ≡ false =
          free (next - counter - 1 - s) (omega (arith, p.back)) in
        let f' : bit bits (next - counter - 1) ≡ false = rw g at f in
        let u : bit bits (next - counter - 1) ≡ true = p.stop (omega arith) in cc
    | no ne ↦ p.none_yet s (omega arith) free
  ]

  Passed-free :
      bit bits next ≡ false → counter + 1 < count → Passed bits count (next + 1) (counter + 1)
  Passed-free free lt = record {
    few = lt;
    back = omega (arith, p.back);
    clear = Free-next free;
    stop = λ h.
        let e : next + 1 - (counter + 1) - 1 ≡ next - counter - 1 = omega arith in
        rw e (p.stop (omega arith));
    none_yet = NoRun-next lt;
  }

pub size_put :
    (map : Bitmap) (i : ℕ) (v : Bool)
    → ((put map i v).length ≡ map.length) × ((put map i v).offset ≡ map.offset)
unfolding put
size_put map i v = (refl, refl)

-- what the first loop finds
pub data Scanned (bits : List ℕ) (size count : ℕ) : Outcome (Option (ℕ × ℕ)) → Type 0 where
  nothing : NoRun bits count size → Scanned bits size count (done none)
  found :
      (start : ℕ)
      → start + count ≤ size
      → Free bits start count
      → NoRun bits count (start + count - 1)
      → Scanned bits size count (done (some (start, count)))

module _ (map : Bitmap) (count : ℕ) (ok : IsValid map) where
  here :
      (next counter : ℕ)
      → next < map.length * 8
      → Passed map.bits count next counter
      → bit map.bits next ≡ false
      → counter + 1 ≡ count
      → Scanned map.bits (map.length * 8) count (done (some (next + 1 - count, count)))
  here next counter h p free e =
      found (next + 1 - count) (omega (arith, p.back))
        (subst (λ c. Free map.bits (next + 1 - c) c) e
          (Free-next map.bits count next counter p free))
        (let f : next + 1 - count + count - 1 ≡ next = omega (arith, p.back) in rw f p.none_yet)

  test_next :
      (next : ℕ)
      → next < map.length * 8
      → bitmap_test map ((map.offset + next) % 2 ^ 32) ≡ done (bit map.bits next)
  test_next next h =
      let e : (map.offset + next) % 2 ^ 32 ≡ map.offset + next = omega (arith, ok.word) in
      let f : map.offset + next - map.offset ≡ next = omega arith in
      rw (e, bitmap_test_lem map (map.offset + next) ok, f) (ground arith)

  module _ (k next counter : ℕ) (h : next < map.length * 8) where
    step_used :
        bit map.bits next ≡ true
        → 0 < count
        → scan_loop map count (suc k) next counter ≡ scan_loop map count k (next + 1) 0
    unfolding scan_loop
    step_used used pos = ground (arith, test_next next h)

    step_free :
        bit map.bits next ≡ false
        → counter + 1 ≢ count
        → scan_loop map count (suc k) next counter ≡ scan_loop map count k (next + 1) (counter + 1)
    unfolding scan_loop
    step_free free miss = ground (arith, test_next next h)

    step_hit :
        bit map.bits next ≡ false
        → counter + 1 ≡ count
        → scan_loop map count (suc k) next counter ≡ done (some (next + 1 - count, count))
    unfolding scan_loop
    step_hit free hit = ground (arith, test_next next h)

  scan_loop-Scanned :
      (k next counter : ℕ)
      → next + k ≡ map.length * 8
      → Passed map.bits count next counter
      → Scanned map.bits (map.length * 8) count (scan_loop map count k next counter)
  unfolding scan_loop
  scan_loop-Scanned zero next counter e p =
      nothing (let f : next ≡ map.length * 8 = omega arith in rw (← f) p.none_yet)
  scan_loop-Scanned (suc k) next counter e p = elim (Bool-cases (bit map.bits next)) [
    | inl used ↦
        subst (Scanned map.bits (map.length * 8) count)
          (sym (step_used k next counter (omega arith) used (omega (arith, p.few))))
          (scan_loop-Scanned k (next + 1) 0 (omega arith)
            (Passed-used map.bits count next counter p used))
    | inr free ↦ elim (ℕ_discrete (counter + 1) count) [
      | yes hit ↦
          subst (Scanned map.bits (map.length * 8) count)
            (sym (step_hit k next counter (omega arith) free hit))
            (here next counter (omega arith) p free hit)
      | no miss ↦
          subst (Scanned map.bits (map.length * 8) count)
            (sym (step_free k next counter (omega arith) free miss))
            (scan_loop-Scanned k (next + 1) (counter + 1) (omega arith)
              (Passed-free map.bits count next counter p free (omega (arith, p.few))))
    ]
  ]

  scan_loop_all :
      0 < count
      → Scanned map.bits (map.length * 8) count (scan_loop map count (map.length * 8 % 2 ^ 32) 0 0)
  scan_loop_all h =
      scan_loop-Scanned (map.length * 8 % 2 ^ 32) 0 0 (omega (arith, ok.word)) (record {
        few = h;
        back = omega arith;
        clear = λ j lt. elim lt [ ];
        stop = λ lt. elim lt [ ];
        none_yet = λ s lt free. omega arith;
      })

-- `m` is `map` with the bits from `next` to `next + k` set
pub record Marked (map : Bitmap) (next k : ℕ) (m : Bitmap) : Type 0 where
  pub valid : IsValid m
  pub size : m.length ≡ map.length
  pub origin : m.offset ≡ map.offset
  pub marked :
      (j : ℕ) → bit m.bits j ≡ (if leb next j && ltb j (next + k) then true else bit map.bits j)

abbrev Marks : Bitmap → ℕ → ℕ → Type 0
Marks map next k = (m : Bitmap) × (mark_loop k next map ≡ done m) × Marked map next k m

module _ (map : Bitmap) (k next : ℕ) (ok : IsValid map) (h : next + suc k ≤ map.length * 8) where
  mark_step : mark_loop (suc k) next map ≡ mark_loop k (next + 1) (put map next true)
  unfolding mark_loop
  mark_step =
      let e : (map.offset + next) % 2 ^ 32 ≡ map.offset + next = omega (arith, ok.word) in
      rw (e, bitmap_set-put next true ok (omega arith))

  Marked-put : (m : Bitmap) → Marked (put map next true) (next + 1) k m → Marked map next (suc k) m
  Marked-put m r = record {
    valid = r.valid;
    size = r.size ∙ (size_put map next true).0;
    origin = r.origin ∙ (size_put map next true).1;
    marked = λ j. ground (arith, r.marked j, bit-put next j true ok);
  }

mark_loop-Marked :
    (map : Bitmap) (k next : ℕ) → IsValid map → next + k ≤ map.length * 8 → Marks map next k
unfolding mark_loop
mark_loop-Marked map zero next ok h =
    (map, refl, record { valid = ok; size = refl; origin = refl; marked = λ j. ground arith })
mark_loop-Marked map (suc k) next ok h =
    let (m, run, r) =
      mark_loop-Marked (put map next true) k (next + 1) (put-IsValid next true ok)
        (omega (arith, (size_put map next true).0)) in
    (m, mark_step map k next ok h ∙ run, Marked-put map k next ok h m r)

-- What `bitmap_scan` returns and leaves, for `count` clear bits.
pub data Found (map : Bitmap) (count : ℕ) : Option ℕ × Bitmap → Type 0 where
  full : NoRun map.bits count (map.length * 8) → Found map count (none, map)
  first :
      (start : ℕ) (m : Bitmap)
      → start + count ≤ map.length * 8
      → Free map.bits start count
      → NoRun map.bits count (start + count - 1)
      → Marked map start count m
      → Found map count (some (start + map.offset), m)

-- `bitmap_scan` of a valid bitmap for at least one bit returns. It finds the first run of `count`
-- clear bits, returns the index where that run starts, sets exactly its bits and keeps the bitmap
-- valid; with no such run it returns `EOF` and changes nothing.
pub bitmap_scan-Found :
    (map : Bitmap) (count : ℕ)
    → IsValid map
    → 0 < count
    → (r : Option ℕ × Bitmap) × (bitmap_scan map count ≡ done r) × Found map count r
unfolding bitmap_scan
bitmap_scan-Found map count ok pos = split _ refl (scan_loop_all map count ok pos)
  where
    split :
        (o : Outcome (Option (ℕ × ℕ)))
        → scan_loop map count (map.length * 8 % 2 ^ 32) 0 0 ≡ o
        → Scanned map.bits (map.length * 8) count o
        → (r : Option ℕ × Bitmap) × (bitmap_scan map count ≡ done r) × Found map count r
    split _ e (nothing none_yet) = ((none, map), rw e, full none_yet)
    split _ e (found start h free before) =
        let (m, run, r) = mark_loop-Marked map count start ok h in
        ((some (start + map.offset), m), rw (e, run), first start m h free before r)
