-- ===== src/Console/Rows.antt =====
-- What the rows of the window hold when kernel/console.c scrolls.
use os_store.Base.{
  ℕ, zero, suc, ◌+◌, ◌-◌, ◌*◌, ◌%◌, ◌≤◌, ◌<◌, ◌≡◌, ◌≢◌, refl, ap, false, ◌&&◌, ltb, leb, ◌==◌,
  if◌then◌else◌, leb→le, Bool-cases, inl, inr, arith,
}
use os_store.Base.Memory.{Memory, write}
use os_store.Cstring.Copy.{memcpy-Copied}
use os_store.Console.{Console, mem_base, mem_end, rewind, scroll_up, erase_loop, put_char, wrap_row}
use os_store.Console.Invariant.{IsValid}

-- byte `k` of four that `erase_loop` stores
abbrev pub pattern4 : ℕ → ℕ
pattern4 k = if k == 0 then 0x20 else if k == 1 then 0x07 else 0

erase_loop_lem :
    (n ptr : ℕ) (mem : Memory) (a : ℕ)
    → erase_loop n ptr mem a
      ≡ (if leb ptr a && ltb a (ptr + 4 * n) then pattern4 ((a - ptr) % 4) else mem a)
unfolding erase_loop
erase_loop_lem zero ptr mem a = ground arith
erase_loop_lem (suc n) ptr mem a = ground (
  arith,
  erase_loop_lem n (ptr + 4)
      (write (write (write (write mem ptr 0x20) (ptr + 1) 0x07) (ptr + 2) 0) (ptr + 3) 0) a,
)

-- byte `i` of the window
abbrev pub window : Console → ℕ → ℕ
window c i = c.mem (c.screen + i)

-- going back to the start of the memory shows the same window
window-rewind : (c : Console) (i : ℕ) → IsValid c → i < 4000 → window (rewind c) i ≡ window c i
unfolding rewind
window-rewind c i v h = elim (Bool-cases (leb mem_end (c.screen + 4000 + 160))) [
  | inl back ↦
      let e : mem_base + i - mem_base ≡ i = omega arith in
      rw back (
        ground (
          arith,
          ap (λ k. c.mem (c.screen + k)) e,
          memcpy-Copied mem_base c.screen 4000 c.mem
              (inl (omega (arith, leb→le mem_end (c.screen + 4000 + 160) back))) (mem_base + i),
        ))
  | inr stay ↦ rw stay
]

rewind_stays :
    (c : Console) → c.screen ≡ mem_base + 160 * 76 → (rewind c).screen ≡ mem_base + 160 * 76
unfolding rewind
rewind_stays c e = ground arith

-- what `scroll_up` does behind `rewind`
scroll_up_shape :
    (c : Console)
    → IsValid c
    → ((scroll_up c).screen ≡ (rewind c).screen + 160)
      × ((scroll_up c).mem ≡ erase_loop 80 ((rewind c).screen + 4000) (rewind c).mem)
unfolding scroll_up
scroll_up_shape c v = (ground arith, refl)

scrolled :
    (c : Console) (i : ℕ)
    → IsValid c
    → window (scroll_up c) i ≡ (
        if leb 3840 i && ltb i 4160 then pattern4 ((i - 3840) % 4) else window (rewind c) (160 + i))
scrolled c i v =
    let (s, m) = scroll_up_shape c v in
    let base = (rewind c).screen in
    let e : base + 160 + i ≡ base + (160 + i) = omega arith in
    let f : base + (160 + i) - (base + 4000) ≡ i - 3840 = omega arith in
    rw (s, m, e, erase_loop_lem 80 (base + 4000) (rewind c).mem (base + (160 + i)), f)
      (ground arith)

-- Scrolling moves the text up by one row, also where the window goes back to the start of the video
-- memory: rows 1 to 24 become rows 0 to 23, and row 24 is cleared (every second cell of it to 0).
pub scroll_up_lem :
    (c : Console)
    → IsValid c
    → ((i : ℕ) → i < 3840 → window (scroll_up c) i ≡ window c (160 + i))
      × ((i : ℕ) → 3840 ≤ i → i < 4000 → window (scroll_up c) i ≡ pattern4 ((i - 3840) % 4))
scroll_up_lem c v = (
  (λ i h. ground (arith, scrolled c i v, window-rewind c (160 + i) v)),
  λ i lo hi. ground (arith, scrolled c i v),
)

-- The 80 stores of four bytes clear two rows, not one: a scroll whose new window is row 77 of the
-- memory, the last, writes behind the end of the video memory.
pub scroll_up_beyond :
    (c : Console) → IsValid c → c.screen ≡ mem_base + 160 * 76 → (scroll_up c).mem mem_end ≡ 0x20
scroll_up_beyond c v e =
    let (s, m) = scroll_up_shape c v in
    let r : (rewind c).screen ≡ mem_base + 160 * 76 = rewind_stays c e in
    rw (m, r, erase_loop_lem 80 (mem_base + 160 * 76 + 4000) (rewind c).mem mem_end)

wrap_row-stay : (c : Console) → c.x < 80 → wrap_row c ≡ c
unfolding wrap_row
wrap_row-stay c h = let e : leb 80 c.x ≡ false = ground arith in rw e

put_char-room :
    (c : Console) (ch : ℕ)
    → c.x < 80
    → ((put_char c ch).mem ≡ write (write c.mem c.pos ch) (c.pos + 1) 7)
      × ((put_char c ch).x ≡ c.x + 1)
      × ((put_char c ch).screen ≡ c.screen)
unfolding put_char
put_char-room c ch h = rw (wrap_row-stay c h) (refl, refl, refl)

-- An ordinary character goes to the cursor's cell with attribute 7, the cursor moves on by one, and
-- every other byte of the memory stays, where the row is not full.
pub put_char_lem :
    (c : Console) (ch : ℕ)
    → IsValid c
    → c.x < 80
    → (window (put_char c ch) (160 * c.y + 2 * c.x) ≡ ch)
      × (window (put_char c ch) (160 * c.y + 2 * c.x + 1) ≡ 7)
      × ((put_char c ch).x ≡ c.x + 1)
      × ((a : ℕ) → a ≢ c.pos → a ≢ c.pos + 1 → (put_char c ch).mem a ≡ c.mem a)
put_char_lem c ch v h =
    let (m, x, s) = put_char-room c ch h in
    let e : c.screen + (160 * c.y + 2 * c.x) ≡ c.pos = omega (arith, v.cursor) in
    let f : c.screen + (160 * c.y + 2 * c.x + 1) ≡ c.pos + 1 = omega (arith, v.cursor) in
    rw (m, s) (at_cell e, at_cell' f, x, λ a p q. ground arith)
  where
    at_cell : {k : ℕ} → k ≡ c.pos → write (write c.mem c.pos ch) (c.pos + 1) 7 k ≡ ch
    at_cell e = ground arith

    at_cell' : {k : ℕ} → k ≡ c.pos + 1 → write (write c.mem c.pos ch) (c.pos + 1) 7 k ≡ 7
    at_cell' e = ground arith
