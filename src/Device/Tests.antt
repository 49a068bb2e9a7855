-- ===== src/Device/Tests.antt =====
-- Runs of kernel/device.c, and its theorems at a queue of two requests.
use os_store.Base.{
  Option, ◌>>=◌, ℕ, suc, ◌+◌, ◌*◌, ◌-◌, ◌^◌, ◌≡◌, refl, true, false, ◌⊎◌, none, some, done, panic,
  fault, List, [], ◌∷◌, drop, arith, ◌==◌, if◌then◌else◌, set, replicate,
}
use os_store.NodeList.{
  Nodes, ListT, set_prev, set_next, list_empty, list_insert_sort, anchor_loop, list_insert_before,
  list_init,
}
use os_store.NodeList.Chain.{Holds, member}
use os_store.Device.{
  direct_up, direct_down, DeviceT, Io, do_request, device_read, device_ioctl, request_begin,
  request_end, enqueue, device_get, device_install, device_init, init_loop, get_null_device,
  null_loop,
}
use os_store.Device.Elevator.{drain, drain-sweep}
use os_store.Device.Turns.{
  absent, blocked, active, Queue, put, Ends, arrive, start, Reach, begin, later,
}
use os_store.Device.Request.{Wakes, request_end-Wakes}
use os_store.Device.Served.{Reach-one, Reach-served}
use os_store.Device.Install.{
  AllUsed, Installed, device_install-Installed, device_init-Numbered, length-device_init,
}

abbrev ends : ListT
ends = record { head = 1; tail = 2 }

-- 1 ⇄ 7 ⇄ 8 ⇄ 9 ⇄ 2
abbrev three : Nodes
three = record {
  next = λ q.
      if q == 1
      then some 7
      else if q == 7
      then some 8
      else if q == 8
      then some 9
      else if q == 9
      then some 2
      else none;
  prev = λ q.
      if q == 2
      then some 9
      else if q == 9
      then some 8
      else if q == 8
      then some 7
      else if q == 7
      then some 1
      else none;
}

three-Holds : Holds three ends (7 ∷ 8 ∷ 9 ∷ [])
three-Holds = record {
  links = (refl, refl, (refl, refl, (refl, refl, (refl, refl))));
  distinct = (refl, (refl, (refl, (refl, (refl, tt)))));
}

unary : (k : ℕ) → 1 + k ≡ suc k
unary k = omega arith

drain-sweep_example : drain 5 direct_up ends 8 three ≡ done (8 ∷ 9 ∷ 7 ∷ [])
drain-sweep_example =
    drain-sweep 5 direct_up ends (7 ∷ []) 8 (9 ∷ []) three three-Holds (omega arith)

-- task 7 is served, and 5 waits before it
abbrev idx : ℕ → ℕ
idx q = q * 10

abbrev linked : (before r after : ℕ) → Nodes → Nodes
linked before r after h =
    set_prev after (some r)
      (set_next before (some r) (set_next r (some after) (set_prev r (some before) h)))

abbrev one : Queue
one = record {
  nodes = linked 1 7 2 (start ends).nodes;
  direct = direct_up;
  place = put 7 active (λ _. absent);
}

abbrev two : Queue
two = record { nodes = linked 1 5 7 one.nodes; direct = direct_up; place = put 5 blocked one.place }

first_in : (k : ℕ) → enqueue (1 + k) ends idx 7 (start ends).nodes ≡ done (true, one.nodes)
unfolding list_init enqueue list_empty list_insert_sort anchor_loop list_insert_before
first_in k = rw (unary k) refl

one-Reach : Reach ends one
unfolding list_init
one-Reach = later begin (arrive 7 idx true one.nodes refl refl (1, first_in))

second_in : (k : ℕ) → enqueue (1 + k) ends idx 5 one.nodes ≡ done (false, two.nodes)
unfolding list_init enqueue list_empty list_insert_sort anchor_loop list_insert_before
second_in k = rw (unary k) refl

two-Reach : Reach ends two
unfolding list_init
two-Reach = later one-Reach (arrive 5 idx false two.nodes refl refl (1, second_in))

Reach-one_example : ◌≡◌ {A = ℕ} 7 7
Reach-one_example = Reach-one ends two 7 7 refl two-Reach refl refl

Reach-served_example :
    (u : ℕ) × (rs : List ℕ) × (two.place u ≡ active)
    × Ends (λ fuel. drain fuel direct_up ends u two.nodes) rs
    × (member 5 rs ≡ true)
Reach-served_example = Reach-served ends two 5 refl two-Reach refl

abbrev blank : DeviceT (Unit {0})
blank = record {
  type = 0;
  subtype = 0;
  dev = 0;
  parent = 0;
  ptr = 0;
  request_list = ends;
  direct = direct_down;
  ioctl = none;
  read = none;
  write = none;
}

abbrev table : List (DeviceT (Unit {0}))
table = (device_init (replicate 64 blank) three).0

-- a keyboard
abbrev keyboard : DeviceT (Unit {0})
keyboard = record blank { type = 1; subtype = 2 }

install-first :
    device_install keyboard table
    ≡ done (1, set table 1 (record keyboard { dev = 1; direct = direct_up }))
unfolding device_install get_null_device null_loop device_init init_loop
install-first = refl

-- -1 passes the assertion of `device_get`
get-negative : device_get (2 ^ 32 - 1) table ≡ fault
unfolding device_get device_init init_loop
get-negative = refl

device_install-Installed_example :
    (AllUsed (drop 1 table) × (device_install keyboard table ≡ panic))
    ⊎ ((i : ℕ) × (after : List (DeviceT (Unit {0}))) × (device_install keyboard table
          ≡ done (i, after))
        × Installed keyboard table i after)
device_install-Installed_example =
    device_install-Installed keyboard table refl (length-device_init (replicate 64 blank) three)
      (device_init-Numbered (replicate 64 blank) three)

-- a disk whose queue is `three`, and 8 is served
abbrev drive : DeviceT (Unit {0})
drive = record blank {
  type = 2;
  dev = 1;
  direct = direct_up;
  read = some (λ ptr buf count idx flags w. done (0, w));
}

abbrev io : Io (Unit {0})
io = record {
  devices = blank ∷ drive ∷ [];
  nodes = three;
  requests =
      λ q. record { dev = 1; type = 0; idx = q * 10; count = 2; flags = 0; buf = 0; task = some q };
  world = tt;
}

request_end-Wakes_example :
    (woken : Option ℕ) × (after : Io (Unit {0})) × (request_end (λ _. true) 1 8 io
      ≡ done (woken, after))
    × Holds after.nodes ends (7 ∷ 9 ∷ [])
    × Wakes (λ _. true) 1 8 io direct_up (7 ∷ []) (9 ∷ []) woken
unfolding do_request device_read device_get
request_end-Wakes_example =
    request_end-Wakes (λ _. true) 1 8 io drive tt (7 ∷ []) (9 ∷ []) refl refl three-Holds
      (λ q m. (q, refl, refl))

-- a request of task 5 joins the queue and has to wait
request_begin-waits :
    request_begin 9 5 5 1 0 2 50 0 0 io >>= (λ ((empty, i), s). done (i ∷ (s.requests 5).idx ∷ []))
    ≡ done (1 ∷ 49 ∷ [])
unfolding request_begin device_get device_ioctl enqueue list_empty list_insert_sort anchor_loop
    list_insert_before
request_begin-waits = refl
