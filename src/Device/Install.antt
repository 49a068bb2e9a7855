-- ===== src/Device/Install.antt =====
-- The table of devices: installing, looking up and finding a device.
use os_store.Base.{
  ℕ, zero, suc, ◌+◌, ◌<◌, ◌≡◌, refl, ap, sym, ◌∙◌, true, false, Option, none, some, List, [], ◌∷◌,
  ◌==◌, if◌then◌else◌, length, length-set, drop, get_elem?, set, arith, done, panic, load, store,
  Bool-cases, inl, inr, ◌⊎◌,
}
use os_store.Base.Int.{int_lt}
use os_store.NodeList.{Nodes, list_init}
use os_store.Device.{
  DeviceT, init_loop, device_init, device_nr, dev_null, null_loop, get_null_device, device_get,
  installed, device_install, find_loop, device_find,
}

module _ {W : Type 0} where
  -- the number of a device is its index
  abbrev pub Numbered : ℕ → List (DeviceT W) → Type 0
  Numbered i [] = Unit
  Numbered i (d ∷ ds) = (d.dev ≡ i) × Numbered (i + 1) ds

  init_loop-Numbered : (i : ℕ) (ds : List (DeviceT W)) (h : Nodes) → Numbered i (init_loop i ds h).0
  unfolding init_loop
  init_loop-Numbered i [] h = tt
  init_loop-Numbered i (d ∷ ds) h =
      (refl, init_loop-Numbered (i + 1) ds (list_init d.request_list h))

  length-init_loop :
      (i : ℕ) (ds : List (DeviceT W)) (h : Nodes) → length (init_loop i ds h).0 ≡ length ds
  unfolding init_loop
  length-init_loop i [] h = refl
  length-init_loop i (d ∷ ds) h = ap suc (length-init_loop (i + 1) ds (list_init d.request_list h))

  -- `device_init` numbers the devices.
  pub device_init-Numbered : (ds : List (DeviceT W)) (h : Nodes) → Numbered 0 (device_init ds h).0
  unfolding device_init
  device_init-Numbered ds h = init_loop-Numbered 0 ds h

  pub length-device_init :
      (ds : List (DeviceT W)) (h : Nodes) → length (device_init ds h).0 ≡ length ds
  unfolding device_init
  length-device_init ds h = length-init_loop 0 ds h

  -- the devices of a subtype, with their indices counted from `i`
  abbrev pub of_subtype : ℕ → ℕ → List (DeviceT W) → List ℕ
  of_subtype subtype i [] = []
  of_subtype subtype i (d ∷ ds) =
      let rest = of_subtype subtype (i + 1) ds in if d.subtype == subtype then i ∷ rest else rest

  find_loop-nth :
      (subtype idx i nr k : ℕ) (ds : List (DeviceT W))
      → idx ≡ nr + k
      → find_loop subtype idx i nr ds ≡ get_elem? (of_subtype subtype i ds) k
  unfolding find_loop
  find_loop-nth subtype idx i nr k [] e = refl
  find_loop-nth subtype idx i nr zero (d ∷ ds) e = elim (Bool-cases (d.subtype == subtype)) [
    | inl q ↦ let z : (nr == idx) ≡ true = ground (arith, e) in rw (q, z)
    | inr q ↦ rw q (find_loop-nth subtype idx (i + 1) nr zero ds e)
  ]
  find_loop-nth subtype idx i nr (suc k) (d ∷ ds) e = elim (Bool-cases (d.subtype == subtype)) [
    | inl q ↦
        let z : (nr == idx) ≡ false = ground (arith, e) in
        rw (q, z) (find_loop-nth subtype idx (i + 1) (nr + 1) k ds (omega arith))
    | inr q ↦ rw q (find_loop-nth subtype idx (i + 1) nr (suc k) ds e)
  ]

  -- `device_find` gives the device of the subtype that has `idx` devices of the subtype before it, and
  -- `NULL` where there is none.
  pub device_find_lem :
      (subtype idx : ℕ) (ds : List (DeviceT W))
      → device_find subtype idx ds ≡ get_elem? (of_subtype subtype 0 ds) idx
  unfolding device_find
  device_find_lem subtype idx ds = find_loop-nth subtype idx 0 0 idx ds (omega arith)

  -- no device is free
  abbrev pub AllUsed : List (DeviceT W) → Type 0
  AllUsed [] = Unit
  AllUsed (d ∷ ds) = ((d.type == dev_null) ≡ false) × AllUsed ds

  null_loop-first :
      (i : ℕ) (ds : List (DeviceT W))
      → (AllUsed ds × (null_loop i ds ≡ panic))
        ⊎ ((k : ℕ) × (d : DeviceT W) × (null_loop i ds ≡ done (i + k))
            × (get_elem? ds k ≡ some d)
            × ((d.type == dev_null) ≡ true))
  unfolding null_loop
  null_loop-first i [] = inl (tt, refl)
  null_loop-first i (d ∷ ds) = elim (Bool-cases (d.type == dev_null)) [
    | inl q ↦ inr (0, d, rw q (ap done (omega arith)), refl, q)
    | inr q ↦ elim (null_loop-first (i + 1) ds) [
      | inl (u, e) ↦ inl ((q, u), rw (q, e))
      | inr (k, d', e, f, t) ↦ inr (suc k, d', rw (q, e) (ap done (omega arith)), f, t)
    ]
  ]

  get_elem?-set_self :
      (ds : List (DeviceT W)) (i : ℕ) (v d : DeviceT W)
      → get_elem? ds i ≡ some d
      → get_elem? (set ds i v) i ≡ some v
  get_elem?-set_self [] i v d e = ground (arith, e)
  get_elem?-set_self (x ∷ ds) zero v d e = refl
  get_elem?-set_self (x ∷ ds) (suc i) v d e = get_elem?-set_self ds i v d e

  get_elem?-set_ne :
      (ds : List (DeviceT W)) (i j : ℕ) (v : DeviceT W)
      → (j == i) ≡ false
      → get_elem? (set ds i v) j ≡ get_elem? ds j
  get_elem?-set_ne [] i j v n = refl
  get_elem?-set_ne (x ∷ ds) zero zero v n = ground (arith, n)
  get_elem?-set_ne (x ∷ ds) zero (suc j) v n = refl
  get_elem?-set_ne (x ∷ ds) (suc i) zero v n = refl
  get_elem?-set_ne (x ∷ ds) (suc i) (suc j) v n = get_elem?-set_ne ds i j v (ground (arith, n))

  get_elem?-bound :
      (ds : List (DeviceT W)) (i : ℕ) (d : DeviceT W) → get_elem? ds i ≡ some d → i < length ds
  get_elem?-bound [] i d e = ground (arith, e)
  get_elem?-bound (x ∷ ds) zero d e = omega arith
  get_elem?-bound (x ∷ ds) (suc i) d e = omega (arith, get_elem?-bound ds i d e)

  dev_of : ℕ → Option (DeviceT W) → ℕ
  dev_of n none = n
  dev_of n (some d) = d.dev

  Numbered-at :
      (i k : ℕ) (ds : List (DeviceT W)) (d : DeviceT W)
      → Numbered i ds
      → get_elem? ds k ≡ some d
      → d.dev ≡ i + k
  unfolding dev_of
  Numbered-at i k [] d n e = ground (arith, e)
  Numbered-at i zero (x ∷ ds) d (n, m) e = sym (ap (dev_of i) e) ∙ n ∙ omega arith
  Numbered-at i (suc k) (x ∷ ds) d (n, m) e = Numbered-at (i + 1) k ds d m e ∙ omega arith

  Numbered-set :
      (i k : ℕ) (ds : List (DeviceT W)) (v : DeviceT W)
      → Numbered i ds
      → v.dev ≡ i + k
      → Numbered i (set ds k v)
  Numbered-set i k [] v n e = tt
  Numbered-set i zero (x ∷ ds) v (n, m) e = (e ∙ omega arith, m)
  Numbered-set i (suc k) (x ∷ ds) v (n, m) e = (n, Numbered-set (i + 1) k ds v m (e ∙ omega arith))

  device_get-some :
      (ds : List (DeviceT W)) (i : ℕ) (d : DeviceT W)
      → i < 64
      → get_elem? ds i ≡ some d
      → (d.type == dev_null) ≡ false
      → device_get i ds ≡ done d
  unfolding device_get
  device_get-some ds i d w e t =
      let z : int_lt i device_nr ≡ true = ground (arith, w) in rw (z, load, e, t)

  -- what `device_install` does to the table `ds` of which it takes the free device `i`
  pub record Installed (new : DeviceT W) (ds : List (DeviceT W)) (i : ℕ) (after : List (DeviceT W))
      : Type 0 where
    pub old : DeviceT W
    pub behind_0 : 0 < i
    pub was : get_elem? ds i ≡ some old
    pub free : (old.type == dev_null) ≡ true
    pub there : device_get i after ≡ done (installed new old)
    pub others : (j : ℕ) → (j == i) ≡ false → get_elem? after j ≡ get_elem? ds j
    pub size : length after ≡ length ds
    pub numbered : Numbered 0 after

  -- `device_install` into a table of 64 numbered devices panics if each device but the first is in use. Else
  -- it returns the number of a free one, from which `device_get` then returns the new device, and leaves the
  -- other devices and the numbers as they were.
  pub device_install-Installed :
      (new : DeviceT W) (ds : List (DeviceT W))
      → (new.type == dev_null) ≡ false
      → length ds ≡ 64
      → Numbered 0 ds
      → (AllUsed (drop 1 ds) × (device_install new ds ≡ panic))
        ⊎ ((i : ℕ) × (after : List (DeviceT W)) × (device_install new ds ≡ done (i, after))
            × Installed new ds i after)
  unfolding device_install get_null_device
  device_install-Installed new [] t w n = absurd (omega arith)
  device_install-Installed new (x ∷ ds) t w n = elim (null_loop-first 1 ds) [
    | inl (u, e) ↦ inl (u, rw e)
    | inr (k, d, e, f, z) ↦
        let after : List (DeviceT W) = x ∷ set ds k (installed new d) in
        let c : 1 + k ≡ suc k = omega arith in
        let dev : d.dev ≡ suc k = Numbered-at 0 (suc k) (x ∷ ds) d n f ∙ omega arith in
        inr (
          suc k,
          after,
          rw (e, c, load, f, store, dev, c),
          record {
            old = d;
            behind_0 = omega arith;
            was = f;
            free = z;
            there =
                device_get-some after (suc k) (installed new d)
                  (omega (arith, w, get_elem?-bound ds k d f))
                  (get_elem?-set_self ds k (installed new d) d f) t;
            others = λ j ne. get_elem?-set_ne (x ∷ ds) (suc k) j (installed new d) ne;
            size = length-set (x ∷ ds) (suc k) (installed new d);
            numbered = Numbered-set 0 (suc k) (x ∷ ds) (installed new d) n (dev ∙ omega arith);
          },
        )
  ]
