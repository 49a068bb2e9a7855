-- ===== src/Device.antt =====
-- kernel/device.c and include/onix/device.h: the table of devices, and the requests that wait for a block
-- device. A device is its index in the table, a request the address of its list node. Names of devices are
-- left out, as nothing here reads them. `W` is what the drivers work on.
pub mod Elevator
pub mod Moves
pub mod Turns
pub mod Served
pub mod Install
pub mod Request
mod Tests
use os_store.Base.{
  ℕ, zero, suc, ◌+◌, ◌-◌, ◌%◌, ◌^◌, Bool, true, false, not, ◌&&◌, ◌||◌, Option, none, some, List,
  [], ◌∷◌, length, set, ◌==◌, if◌then◌else◌, Outcome, done, panic, ◌>>=◌, ◌>>◌, assert, load, store,
}
use os_store.Base.Int.{int_lt}
use os_store.NodeList.{
  Nodes, ListT, deref, points_to, list_init, list_empty, list_insert_sort, list_remove,
}

abbrev pub device_nr : ℕ
device_nr = 64

abbrev pub dev_null : ℕ
dev_null = 0

abbrev pub dev_block : ℕ
dev_block = 2

abbrev pub dev_cmd_sector_start : ℕ
dev_cmd_sector_start = 1

-- `EOF`, -1
abbrev pub eof : ℕ
eof = 2 ^ 32 - 1

-- the direction of the elevator
pub data Direct : Type 0 where
  direct_up : Direct
  direct_down : Direct

-- The functions take the device pointer and three or four more arguments, and return an `int`.
pub record DeviceT (W : Type 0) : Type 0 where
  pub type : ℕ
  pub subtype : ℕ
  pub dev : ℕ
  pub parent : ℕ
  pub ptr : ℕ
  pub request_list : ListT
  pub direct : Direct
  pub ioctl : Option (ℕ → ℕ → ℕ → ℕ → W → Outcome (ℕ × W))
  pub read : Option (ℕ → ℕ → ℕ → ℕ → ℕ → W → Outcome (ℕ × W))
  pub write : Option (ℕ → ℕ → ℕ → ℕ → ℕ → W → Outcome (ℕ × W))

-- a `request_t` without its node
pub record RequestT : Type 0 where
  pub dev : ℕ
  pub type : ℕ
  pub idx : ℕ
  pub count : ℕ
  pub flags : ℕ
  pub buf : ℕ
  pub task : Option ℕ

-- the static table, the nodes of the request lists, the requests by node, and the drivers' state
pub record Io (W : Type 0) : Type 0 where
  pub devices : List (DeviceT W)
  pub nodes : Nodes
  pub requests : ℕ → RequestT
  pub world : W

module _ {W : Type 0} where
  -- the loop of `get_null_device` over the devices from index `i` on
  unfoldable pub null_loop : ℕ → List (DeviceT W) → Outcome ℕ
  null_loop i [] = panic
  null_loop i (d ∷ ds) =
      let rest = null_loop (i + 1) ds in if d.type == dev_null then done i else rest

  -- the search starts behind device 0
  unfoldable pub get_null_device : List (DeviceT W) → Outcome ℕ
  unfolding null_loop
  get_null_device [] = panic
  get_null_device (_ ∷ ds) = null_loop 1 ds

  -- A negative number passes the assertion, and lies outside the table.
  unfoldable pub device_get : ℕ → List (DeviceT W) → Outcome (DeviceT W)
  device_get dev ds = do
    assert (int_lt dev device_nr)
    d ← load ds dev
    assert (not (d.type == dev_null))
    done d

  unfoldable pub device_ioctl : (dev cmd args flags : ℕ) → List (DeviceT W) → W → Outcome (ℕ × W)
  unfolding device_get
  device_ioctl dev cmd args flags ds w = device_get dev ds >>= λ d. elim d.ioctl [
    | none ↦ done (eof, w)
    | some f ↦ f d.ptr cmd args flags w
  ]

  unfoldable pub device_read :
      (dev buf count idx flags : ℕ) → List (DeviceT W) → W → Outcome (ℕ × W)
  unfolding device_get
  device_read dev buf count idx flags ds w = device_get dev ds >>= λ d. elim d.read [
    | none ↦ done (eof, w)
    | some f ↦ f d.ptr buf count idx flags w
  ]

  unfoldable pub device_write :
      (dev buf count idx flags : ℕ) → List (DeviceT W) → W → Outcome (ℕ × W)
  unfolding device_get
  device_write dev buf count idx flags ds w = device_get dev ds >>= λ d. elim d.write [
    | none ↦ done (eof, w)
    | some f ↦ f d.ptr buf count idx flags w
  ]

  -- what `device_install` writes into the device it has found
  abbrev pub installed : DeviceT W → DeviceT W → DeviceT W
  installed new d = record d {
    ptr = new.ptr;
    parent = new.parent;
    type = new.type;
    subtype = new.subtype;
    ioctl = new.ioctl;
    read = new.read;
    write = new.write;
  }

  -- the arguments are the fields of `new` that `installed` takes
  unfoldable pub device_install : DeviceT W → List (DeviceT W) → Outcome (ℕ × List (DeviceT W))
  unfolding get_null_device
  device_install new ds = do
    i ← get_null_device ds
    d ← load ds i
    ds' ← store ds i (installed new d)
    done (d.dev, ds')

  -- the loop of `device_init` from index `i` on; it sets up the lists as well
  unfoldable pub init_loop : ℕ → List (DeviceT W) → Nodes → List (DeviceT W) × Nodes
  init_loop i [] h = ([], h)
  init_loop i (d ∷ ds) h =
      let (rest, h') = init_loop (i + 1) ds (list_init d.request_list h) in
      (
        record d {
          type = dev_null;
          subtype = dev_null;
          dev = i;
          parent = 0;
          ioctl = none;
          read = none;
          write = none;
          direct = direct_up;
        }
            ∷ rest,
        h',
      )

  unfoldable pub device_init : List (DeviceT W) → Nodes → List (DeviceT W) × Nodes
  unfolding init_loop
  device_init ds h = init_loop 0 ds h

  -- the loop of `device_find` from index `i` on, after `nr` devices of the subtype
  unfoldable pub find_loop : (subtype idx i nr : ℕ) → List (DeviceT W) → Option ℕ
  find_loop subtype idx i nr [] = none
  find_loop subtype idx i nr (d ∷ ds) =
      let next = find_loop subtype idx (i + 1) nr ds in
      let counted = find_loop subtype idx (i + 1) (nr + 1) ds in
      if not (d.subtype == subtype) then next else if nr == idx then some i else counted

  unfoldable pub device_find : (subtype idx : ℕ) → List (DeviceT W) → Option ℕ
  unfolding find_loop
  device_find subtype idx ds = find_loop subtype idx 0 0 ds

  unfoldable pub do_request : RequestT → List (DeviceT W) → W → Outcome W
  unfolding device_read device_write
  do_request req ds w = elim (req.type == 0) [
    | true ↦ device_read req.dev req.buf req.count req.idx req.flags ds w >>= λ (_, w'). done w'
    | false ↦ elim (req.type == 1) [
      | true ↦ device_write req.dev req.buf req.count req.idx req.flags ds w >>= λ (_, w'). done w'
      | false ↦ panic
    ]
  ]

-- the direction after the request at the end of the list
unfoldable pub turn : Direct → ListT → ℕ → Nodes → Direct
turn direct_up l req h = if points_to (h.next req) l.tail then direct_down else direct_up
turn direct_down l req h = if points_to (h.prev req) l.head then direct_up else direct_down

abbrev pub ahead : Direct → ℕ → Nodes → Option ℕ
ahead direct_up req h = h.next req
ahead direct_down req h = h.prev req

-- A node pointer that is `NULL` is a fault here; the code makes an address from it.
unfoldable pub request_nextreq : Direct → ListT → ℕ → Nodes → Outcome (Option ℕ × Direct)
unfolding turn
request_nextreq direct l req h =
    let direct' = turn direct l req h in
    deref (ahead direct' req h) >>= λ next.
    done (if next == l.head || next == l.tail then none else some next, direct')

-- The request joins the list; whether the list was empty before.
unfoldable pub enqueue : ℕ → ListT → (ℕ → ℕ) → ℕ → Nodes → Outcome (Bool × Nodes)
unfolding list_empty list_insert_sort
enqueue fuel l idx req h = do
  let empty = list_empty l h
  h' ← list_insert_sort fuel l idx req h
  done (empty, h')

-- The request leaves the list; the request that is next, and the direction.
unfoldable pub dequeue : Direct → ListT → ℕ → Nodes → Outcome ((Option ℕ × Direct) × Nodes)
unfolding request_nextreq list_remove
dequeue direct l req h = do
  next ← request_nextreq direct l req h
  h' ← list_remove req h
  done (next, h')

module _ {W : Type 0} where
  -- `device_request` by `task` on a fresh request node, up to where the task blocks (`false`) or goes on; the
  -- number is that of the device whose list the request is in
  unfoldable pub request_begin :
      (fuel task node dev buf count idx flags type : ℕ) → Io W → Outcome ((Bool × ℕ) × Io W)
  unfolding device_get device_ioctl enqueue
  request_begin fuel task node dev buf count idx flags type s = do
    d ← device_get dev s.devices
    assert (d.type == dev_block)
    (start, w) ← device_ioctl d.dev dev_cmd_sector_start 0 0 s.devices s.world
    let i = if d.parent == 0 then dev else d.parent
    p ← (elim (d.parent == 0) [ true ↦ done d | false ↦ device_get d.parent s.devices ])
    (empty, h) ←
        enqueue fuel p.request_list
          (λ q. if q == node then (idx + start) % 2 ^ 32 else (s.requests q).idx) node s.nodes
    let new : RequestT = record {
      dev = p.dev;
      type = type;
      idx = (idx + start) % 2 ^ 32;
      count = count;
      flags = flags;
      buf = buf;
      task = if empty then none else some task;
    }
    done (
      (empty, i),
      record {
        devices = s.devices;
        nodes = h;
        requests = λ q. if q == node then new else s.requests q;
        world = w;
      },
    )

  -- the rest of it, once the request's turn has come; `is_task` is the test of the magic number, and the
  -- result is the task that is woken
  unfoldable pub request_end : (ℕ → Bool) → (i node : ℕ) → Io W → Outcome (Option ℕ × Io W)
  unfolding do_request dequeue
  request_end is_task i node s = do
    w ← do_request (s.requests node) s.devices s.world
    d ← load s.devices i
    ((nextreq, direct), h) ← dequeue d.direct d.request_list node s.nodes
    ds ← store s.devices i (record d { direct = direct })
    woken ← (elim nextreq [
      | none ↦ done none
      | some n ↦ deref (s.requests n).task >>= λ t. assert (is_task t) >> done (some t)
    ])
    done (woken, record s { devices = ds; nodes = h; world = w })
