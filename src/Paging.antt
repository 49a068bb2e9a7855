-- ===== src/Paging.antt =====
-- The page tables of kernel/memory.c: link_page, unlink_page, page_fault, sys_brk and free_pde. A page table is the
-- physical page that holds it; the running task's page directory is apart. Of the
-- translations that the processor keeps (the TLB) only that of address 0 is modelled, for as long as the task
-- runs: copy_page changes the entry of that address without a flush. Any other entry counts from the moment it
-- is written.
pub mod Refs
pub mod Share
pub mod Counts
pub mod Links
pub mod Unlink
pub mod Fault
pub mod Write
pub mod Brk
pub mod Free
mod Tests
use os_store.Base.{
  ℕ, zero, suc, ◌+◌, ◌-◌, ◌/◌, ◌%◌, ◌^◌, Bool, true, false, not, ◌&&◌, ◌||◌, ltb, leb, ◌==◌,
  if◌then◌else◌, set, Option, none, some, Outcome, done, panic, hung, ◌>>=◌, ◌>>◌, assert, load,
  store,
}
use os_store.Task.{kernel_user}
use os_store.Bitmap.{Bitmap, bitmap_test, bitmap_set}
use os_store.Pages.{
  Pages, index_of, address_of, kernel_memory_size, get_one_page, put_page, free_kpage,
}

-- The fields of `page_entry_t` that the code uses.
pub record Entry : Type 0 where
  pub present : Bool
  pub write : Bool
  pub user : Bool
  pub index : ℕ

abbrev pub put {ℓ} : {A : Type ℓ} → ℕ → A → (ℕ → A) → ℕ → A
put i a f q = if q == i then a else f q

-- The state that a task's page tables are part of: the physical pages, its directory, the entries of each page
-- that is a page table, what the pages hold, and `vmap`, `brk` and `uid` of the task; and the page that the
-- processor takes address 0 for, where it keeps a translation of it.
pub record Space (A : Type 0) : Type 0 where
  pub pages : Pages
  pub dir : ℕ → Entry
  pub tables : ℕ → ℕ → Entry
  pub frames : ℕ → A
  pub vmap : Bitmap
  pub brk : ℕ
  pub uid : ℕ
  pub cached : Option ℕ

-- what the processor keeps for address 0 after `flush_tlb(vaddr)`
abbrev pub flush_tlb : (vaddr : ℕ) → Option ℕ → Option ℕ
flush_tlb vaddr cached = if index_of vaddr == 0 then none else cached

-- the page that address 0 is taken for, whose entry maps `page`
abbrev pub translated : Option ℕ → (page : ℕ) → ℕ
translated none page = page
translated (some old) page = old

abbrev pub user_stack_top : ℕ
user_stack_top = 0x8000000

abbrev pub user_stack_bottom : ℕ
user_stack_bottom = user_stack_top - 0x200000

-- `DIDX` and `TIDX`
abbrev pub didx : ℕ → ℕ
didx addr = addr / 2 ^ 22 % 2 ^ 10

abbrev pub tidx : ℕ → ℕ
tidx addr = addr / 2 ^ 12 % 2 ^ 10

abbrev pub entry_init : ℕ → Entry
entry_init index = record { present = true; write = true; user = true; index = index }

-- an entry of a page of zeros
abbrev pub zero_entry : Entry
zero_entry = record { present = false; write = false; user = false; index = 0 }

-- the entries of a page table that `free_pde` goes over: `left` of them from `tidx` on
unfoldable pub entries_loop : (left i : ℕ) → (table : ℕ → Entry) → Pages → Outcome Pages
entries_loop zero i table pages = done pages
entries_loop (suc left) i table pages = elim ((table i).present) [
  | false ↦ entries_loop left (i + 1) table pages
  | true ↦ load pages.memory_map (table i).index >>= λ count.
      assert (ltb 0 count)
      >> put_page (address_of (table i).index) pages
      >>= entries_loop left (i + 1) table
]

-- the number of the kernel's page tables
abbrev pub kernel_tables : ℕ
kernel_tables = 4

module _ {A : Type 0} where
  -- `table[i] = entry`
  abbrev pub set_entry : (table i : ℕ) → Entry → Space A → Space A
  set_entry table i entry s = record s {
    tables = put table (put i entry (s.tables table)) s.tables;
  }

  -- the page table of the address
  unfoldable pub get_pte : (vaddr : ℕ) → (create : Bool) → Space A → Outcome (ℕ × Space A)
  get_pte vaddr create s =
      let entry = s.dir (didx vaddr) in
      assert (create || entry.present)
      >> (if entry.present
          then done (entry.index, s)
          else get_one_page s.pages >>= λ (page, pages). done (
            index_of page,
            record s {
              pages = pages;
              dir = put (didx vaddr) (entry_init (index_of page)) s.dir;
              tables = put (index_of page) (λ _. zero_entry) s.tables;
            },
          ))

  -- a page is given to a slot that has none
  unfoldable pub link_new : (vaddr table : ℕ) → Space A → Outcome (Space A)
  link_new vaddr table s = do
    map ← bitmap_set s.vmap (index_of vaddr) true
    (paddr, pages) ← get_one_page s.pages
    done (
        set_entry table (tidx vaddr) (entry_init (index_of paddr))
          (record s { vmap = map; pages = pages; cached = flush_tlb vaddr s.cached }))

  unfoldable pub link_page : (vaddr : ℕ) → Space A → Outcome (Space A)
  link_page vaddr s = do
    assert (vaddr % 2 ^ 12 == 0)
    (table, s1) ← get_pte vaddr true s
    used ← bitmap_test s1.vmap (index_of vaddr)
    elim ((s1.tables table (tidx vaddr)).present) [
      | true ↦ assert used >> done s1
      | false ↦ assert (not used) >> link_new vaddr table s1
    ]

  -- the page of a slot is given up
  unfoldable pub unlink_old : (vaddr table : ℕ) → Space A → Outcome (Space A)
  unlink_old vaddr table s = do
    let entry = s.tables table (tidx vaddr)
    map ← bitmap_set s.vmap (index_of vaddr) false
    pages ← put_page (address_of entry.index) s.pages
    done (
        set_entry table (tidx vaddr) (record entry { present = false })
          (record s { vmap = map; pages = pages; cached = flush_tlb vaddr s.cached }))

  unfoldable pub unlink_page : (vaddr : ℕ) → Space A → Outcome (Space A)
  unlink_page vaddr s = do
    assert (vaddr % 2 ^ 12 == 0)
    (table, s1) ← get_pte vaddr true s
    used ← bitmap_test s1.vmap (index_of vaddr)
    elim ((s1.tables table (tidx vaddr)).present) [
      | false ↦ assert (not used) >> done s1
      | true ↦ assert used >> unlink_old vaddr table s1
    ]

  -- A copy of physical page `page`, through the entry of address 0, which is not present before and after. It is
  -- written to the page that the processor takes address 0 for, and that translation is kept.
  unfoldable pub copy_page : (page : ℕ) → Space A → Outcome (ℕ × Space A)
  copy_page page s = do
    (paddr, pages) ← get_one_page s.pages
    (table, s1) ← get_pte 0 false (record s { pages = pages })
    let target = translated s1.cached (index_of paddr)
    done (
      paddr,
      set_entry table 0 (record (entry_init (index_of paddr)) { present = false })
          (record s1 { frames = put target (s1.frames page) s1.frames; cached = some target }),
    )

  -- A write to a page that several slots share: the slot gets a copy. The caller has seen that `count` is above 0.
  unfoldable pub unshare : (vaddr table : ℕ) → Entry → Space A → Outcome (Space A)
  unshare vaddr table entry s = do
    (paddr, s1) ← copy_page entry.index s
    count ← load s1.pages.memory_map entry.index
    map ← store s1.pages.memory_map entry.index (count - 1)
    done (
        set_entry table (tidx vaddr) (entry_init (index_of paddr))
          (record s1 { pages = record s1.pages { memory_map = map } }))

  -- a fault on a page that is present
  unfoldable pub write_fault : (vaddr : ℕ) → Space A → Outcome (Space A)
  write_fault vaddr s = do
    (table, s1) ← get_pte vaddr false s
    let entry = s1.tables table (tidx vaddr)
    assert entry.present
    count ← load s1.pages.memory_map entry.index
    assert (ltb 0 count)
    elim (count == 1) [
      | true ↦ done (set_entry table (tidx vaddr) (record entry { write = true }) s1)
      | false ↦ unshare vaddr table entry s1
    ]

  -- `code->present` and `code->write` are arguments, and `vaddr` is the register cr2.
  unfoldable pub page_fault :
      (vector vaddr : ℕ) → (present write : Bool) → Space A → Outcome (Space A)
  page_fault vector vaddr present write s = do
    assert (vector == 0xe)
    assert (leb kernel_memory_size vaddr && ltb vaddr user_stack_top)
    elim present [
      | true ↦ assert write >> write_fault vaddr s
      | false ↦ elim (ltb vaddr s.brk || leb user_stack_bottom vaddr) [
        | true ↦ link_page (address_of (index_of vaddr)) s
        | false ↦ panic
      ]
    ]

  -- The loop of `sys_brk`, whose step `page == PAGE_SIZE` compares and changes nothing.
  unfoldable pub brk_loop : ℕ → (page old_brk : ℕ) → Space A → Outcome (Space A)
  brk_loop zero page old_brk s = hung
  brk_loop (suc fuel) page old_brk s = elim (ltb page old_brk) [
    | true ↦ unlink_page page s >>= brk_loop fuel page old_brk
    | false ↦ done s
  ]

  -- `brk`, on so much fuel: whether the result is 0, or -1
  unfoldable pub sys_brk : (fuel brk : ℕ) → Space A → Outcome (Bool × Space A)
  sys_brk fuel brk s = do
    assert (brk % 2 ^ 12 == 0)
    assert (not (s.uid == kernel_user))
    assert (leb kernel_memory_size brk && ltb brk user_stack_bottom)
    elim (ltb brk s.brk) [
      | true ↦ brk_loop fuel brk s.brk s >>= λ s1. done (true, record s1 { brk = brk })
      | false ↦ elim (ltb s.pages.free_pages (index_of (brk - s.brk))) [
        | true ↦ done (false, s)
        | false ↦ done (true, record s { brk = brk })
      ]
    ]

  -- the directory entries, `left` of them from `i` on
  unfoldable pub tables_loop : (left i : ℕ) → Space A → Pages → Outcome Pages
  tables_loop zero i s pages = done pages
  tables_loop (suc left) i s pages = elim ((s.dir i).present) [
    | false ↦ tables_loop left (i + 1) s pages
    | true ↦ entries_loop 1024 0 (s.tables (s.dir i).index) pages >>= λ pages1.
        put_page (address_of (s.dir i).index) pages1 >>= tables_loop left (i + 1) s
  ]

  -- `pde` is the address of the task's page directory.
  unfoldable pub free_pde : (pde : ℕ) → Space A → Outcome (Space A)
  free_pde pde s = do
    assert (not (s.uid == kernel_user))
    pages ← tables_loop (kernel_tables - 2) 2 s s.pages
    pages1 ← free_kpage pde 1 pages
    done (record s { pages = pages1 })
