-- ===== src/Usb/Leaving.antt =====
-- What `UsbTransport::open` and `close` of src/usb/usb_transport.cpp leave open and claimed.
use adbcpp.Base.{
  is_empty, [], ℕ, ◌≡◌, ◌≢◌, refl, ap, ◌∙◌, Bool-cases, inl, inr, ◌⊎◌, ◌==◌, ==_iff, Option, none,
  some, List, ◌∷◌, arith,
}
use adbcpp.Outcome.{Result, ok, err, stuck}
use adbcpp.Usb.Channel.{Libusb, Usb, close}
use adbcpp.Usb.Devices.{
  DeviceId, DeviceDescriptor, AdbInterface, Devices, matches, read_serial, device_serial, is_meant,
  device_fail, find_device, find_adb_interface,
}
use adbcpp.Usb.Opening.{
  Claims, found_as, serial_of, serials, claim_answer, open_device_answer, open_interface,
  open_found, open_usb,
}

-- The handles that are open and the interfaces that are claimed, the last one first: what each call
-- of libusb does to them. A claim that fails claims nothing.
pub record Counts {D V : Type 0} (os : Libusb D) (claims : Claims D V) (handles : D → List ℕ)
    (claimed : D → List (Option ℕ)) : Type 0 where
  pub opens :
      (device : V) (d : D) (handle : ℕ)
      → (claims.open_device device d).0 ≡ inr handle
      → handles (claims.open_device device d).1 ≡ handle ∷ handles d
  pub opens_none :
      (device : V) (d : D) (code : ℕ)
      → (claims.open_device device d).0 ≡ inl code
      → handles (claims.open_device device d).1 ≡ handles d
  pub read_keeps : (h i : ℕ) (d : D) → handles (claims.string_descriptor h i d).1 ≡ handles d
  pub read_claims : (h i : ℕ) (d : D) → claimed (claims.string_descriptor h i d).1 ≡ claimed d
  pub open_claims : (device : V) (d : D) → claimed (claims.open_device device d).1 ≡ claimed d
  pub detach_keeps : (h : ℕ) (d : D) → handles (claims.set_auto_detach h d) ≡ handles d
  pub detach_claims : (h : ℕ) (d : D) → claimed (claims.set_auto_detach h d) ≡ claimed d
  pub claim_keeps :
      (h : ℕ) (n : Option ℕ) (d : D) → handles (claims.claim_interface h n d).1 ≡ handles d
  pub claim_claims :
      (h : ℕ) (n : Option ℕ) (d : D)
      → (claims.claim_interface h n d).0 ≡ 0
      → claimed (claims.claim_interface h n d).1 ≡ n ∷ claimed d
  pub claim_fails :
      (h : ℕ) (n : Option ℕ) (d : D)
      → (claims.claim_interface h n d).0 ≢ 0
      → claimed (claims.claim_interface h n d).1 ≡ claimed d
  pub halt_keeps : (h e : ℕ) (d : D) → handles (claims.clear_halt h e d) ≡ handles d
  pub halt_claims : (h e : ℕ) (d : D) → claimed (claims.clear_halt h e d) ≡ claimed d
  pub release_keeps :
      (h : ℕ) (n : Option ℕ) (d : D) → handles (os.release_interface h n d) ≡ handles d
  pub releases :
      (h : ℕ) (n : Option ℕ) (rest : List (Option ℕ)) (d : D)
      → claimed d ≡ n ∷ rest
      → claimed (os.release_interface h n d) ≡ rest
  pub closes :
      (h : ℕ) (rest : List ℕ) (d : D) → handles d ≡ h ∷ rest → handles (os.close_handle h d) ≡ rest
  pub close_claims : (h : ℕ) (d : D) → claimed (os.close_handle h d) ≡ claimed d

module _ {D V : Type 0} (os : Libusb D) (devices : Devices V) (claims : Claims D V)
    (handles : D → List ℕ) (claimed : D → List (Option ℕ))
    (c : Counts os claims handles claimed) where
  -- The same handles are open and the same interfaces are claimed.
  abbrev pub Same : D → D → Type 0
  Same d before = (handles d ≡ handles before) × (claimed d ≡ claimed before)

  -- Behind an open, by its result: a transport with one handle and one claimed interface more, which
  -- closing it gives back, or nothing more.
  abbrev pub Leaves : D → Result (Usb D) × D → Type 0
  Leaves before (ok u, d) =
      (handle : ℕ) × (u.handle ≡ some handle)
      × (u.bus ≡ d)
      × (handles d ≡ handle ∷ handles before)
      × (claimed d ≡ u.interface_number ∷ claimed before)
      × Same (close os u).bus before
  Leaves before (err e, d) = Same d before
  Leaves before (stuck, d) = Same d before

  module _ (adb : AdbInterface) (serial : List ℕ) (timeout_ms budget_ms : ℕ) (before d : D) where
    abbrev u : Usb D
    u = found_as os devices claims adb serial timeout_ms budget_ms d

    claim_answer-Leaves :
        (handle : ℕ) (r : ℕ × D)
        → handles r.1 ≡ handle ∷ handles before
        → (r.0 ≡ 0 → claimed r.1 ≡ adb.number ∷ claimed before)
        → (r.0 ≢ 0 → claimed r.1 ≡ claimed before)
        → Leaves before (claim_answer os devices claims u handle r)
    unfolding close
    claim_answer-Leaves handle (code, x) h fine failed = elim (Bool-cases (code == 0)) [
      | inl e ↦
          let first = claims.clear_halt handle adb.endpoint_in x in
          let halted = claims.clear_halt handle adb.endpoint_out first in
          let open_now : handles halted ≡ handle ∷ handles before =
            c.halt_keeps handle adb.endpoint_out first
            ∙ c.halt_keeps handle adb.endpoint_in x
            ∙ h in
          let claimed_now : claimed halted ≡ adb.number ∷ claimed before =
            c.halt_claims handle adb.endpoint_out first
            ∙ c.halt_claims handle adb.endpoint_in x
            ∙ fine ((==_iff code 0).0 e) in
          let released = os.release_interface handle adb.number halted in
          rw e (
            (
              handle,
              refl,
              refl,
              open_now,
              claimed_now,
              (
                c.closes handle (handles before) released
                    (c.release_keeps handle adb.number halted ∙ open_now),
                c.close_claims handle released
                    ∙ c.releases handle adb.number (claimed before) halted claimed_now,
              ),
            ))
      | inr e ↦ rw e (
          (
            c.closes handle (handles before) x h,
            c.close_claims handle x ∙ failed (ground (arith, e)),
          ))
    ]

    open_device_answer-Leaves :
        (r : (ℕ ⊎ ℕ) × D)
        → ((handle : ℕ) → r.0 ≡ inr handle → handles r.1 ≡ handle ∷ handles before)
        → ((code : ℕ) → r.0 ≡ inl code → handles r.1 ≡ handles before)
        → claimed r.1 ≡ claimed before
        → Leaves before (open_device_answer os devices claims u r)
    open_device_answer-Leaves (inl code, x) fine failed k = (failed code refl, k)
    open_device_answer-Leaves (inr handle, x) fine failed k =
        let detached = claims.set_auto_detach handle x in
        let none_claimed = c.detach_claims handle x ∙ k in
        claim_answer-Leaves handle (claims.claim_interface handle adb.number detached)
          (c.claim_keeps handle adb.number detached ∙ c.detach_keeps handle x ∙ fine handle refl)
          (λ e. c.claim_claims handle adb.number detached e ∙ ap (◌∷◌ adb.number) none_claimed)
          (λ e. c.claim_fails handle adb.number detached e ∙ none_claimed)

  -- What leaves the same behind leaves the same before it.
  Leaves-behind :
      (before d : D) (r : Result (Usb D) × D) → Same d before → Leaves d r → Leaves before r
  Leaves-behind before d (ok u, x) (h, k) (handle, e, b, open_now, claimed_now, (f, g)) = (
    handle,
    e,
    b,
    open_now ∙ ap (◌∷◌ handle) h,
    claimed_now ∙ ap (◌∷◌ u.interface_number) k,
    (f ∙ h, g ∙ k),
  )
  Leaves-behind before d (err e, x) (h, k) (f, g) = (f ∙ h, g ∙ k)
  Leaves-behind before d (stuck, x) (h, k) (f, g) = (f ∙ h, g ∙ k)

  -- Reading a serial closes the handle that it opens.
  read_serial-Same :
      (descriptor : DeviceDescriptor) (before : D) (r : (ℕ ⊎ ℕ) × D)
      → ((handle : ℕ) → r.0 ≡ inr handle → handles r.1 ≡ handle ∷ handles before)
      → ((code : ℕ) → r.0 ≡ inl code → handles r.1 ≡ handles before)
      → claimed r.1 ≡ claimed before
      → Same (read_serial (serials os devices claims) descriptor r).1 before
  read_serial-Same descriptor before (inl code, x) fine failed k = (failed code refl, k)
  read_serial-Same descriptor before (inr handle, x) fine failed k =
      let i = descriptor.i_serial_number in
      let read = (claims.string_descriptor handle i x).1 in
      (
        c.closes handle (handles before) read (c.read_keeps handle i x ∙ fine handle refl),
        c.close_claims handle read ∙ c.read_claims handle i x ∙ k,
      )

  device_serial-Same :
      (device : V) (descriptor : DeviceDescriptor) (d : D)
      → Same (device_serial (serials os devices claims) device descriptor d).1 d
  unfolding device_serial
  device_serial-Same device descriptor d = elim (Bool-cases (descriptor.i_serial_number == 0)) [
    | inl e ↦ rw e ((refl, refl))
    | inr e ↦ rw e (
        read_serial-Same descriptor d (claims.open_device device d) (c.opens device d)
          (c.opens_none device d) (c.open_claims device d))
  ]

  serial_of-Same : (device : V) (d : D) → Same (serial_of os devices claims device d).1 d
  unfolding serial_of
  serial_of-Same device d = at (devices.device_descriptor device) refl
    where
      at :
          (r : ℕ ⊎ DeviceDescriptor)
          → devices.device_descriptor device ≡ r
          → Same (serial_of os devices claims device d).1 d
      at (inl code) e = rw (serial_of, e) ((refl, refl))
      at (inr descriptor) e = rw (serial_of, e) (device_serial-Same device descriptor d)

  is_meant-Same :
      (id : DeviceId) (device : V) (descriptor : DeviceDescriptor) (d : D)
      → Same (is_meant (serials os devices claims) id device descriptor d).1 d
  unfolding is_meant
  is_meant-Same id device descriptor d = elim (Bool-cases (matches descriptor id)) [
    | inr m ↦ rw m ((refl, refl))
    | inl m ↦ elim (Bool-cases (is_empty id.serial)) [
      | inl e ↦ rw (m, e) ((refl, refl))
      | inr e ↦ rw (m, e) (device_serial-Same device descriptor d)
    ]
  ]

  find_device-Same :
      (list : List V) (id : DeviceId) (d : D)
      → Same (find_device (serials os devices claims) devices list id d).1 d
  find_device-Same [] id d = (refl, refl)
  find_device-Same (v ∷ list) id d =
      at (devices.device_descriptor v) refl (λ x. find_device-Same list id x)
    where
      at :
          (r : ℕ ⊎ DeviceDescriptor)
          → devices.device_descriptor v ≡ r
          → ((x : D) → Same (find_device (serials os devices claims) devices list id x).1 x)
          → Same (find_device (serials os devices claims) devices (v ∷ list) id d).1 d
      at (inl code) e rest = rw (find_device, e) (rest d)
      at (inr descriptor) e rest =
          let meant = is_meant (serials os devices claims) id v descriptor d in
          let (h, k) = is_meant-Same id v descriptor d in
          let (f, g) = rest meant.1 in
          elim (Bool-cases meant.0) [
            | inl m ↦ rw (find_device, e, m) ((h, k))
            | inr m ↦ rw (find_device, e, m) ((f ∙ h, g ∙ k))
          ]

  open_interface-Leaves :
      (device : V) (timeout_ms budget_ms : ℕ) (d : D) (r : Result (Option AdbInterface))
      → Leaves d (open_interface os devices claims device timeout_ms budget_ms d r)
  open_interface-Leaves device timeout_ms budget_ms d (err e) = (refl, refl)
  open_interface-Leaves device timeout_ms budget_ms d stuck = (refl, refl)
  open_interface-Leaves device timeout_ms budget_ms d (ok none) = (refl, refl)
  open_interface-Leaves device timeout_ms budget_ms d (ok (some adb)) =
      let serial = serial_of os devices claims device d in
      Leaves-behind d serial.1 _ (serial_of-Same device d) (
        open_device_answer-Leaves adb serial.0 timeout_ms budget_ms serial.1 serial.1
          (claims.open_device device serial.1) (c.opens device serial.1)
          (c.opens_none device serial.1) (c.open_claims device serial.1))

  open_found-Leaves :
      (found : Option V) (timeout_ms budget_ms : ℕ) (d : D)
      → Leaves d (open_found os devices claims found timeout_ms budget_ms d)
  open_found-Leaves none timeout_ms budget_ms d = (refl, refl)
  open_found-Leaves (some device) timeout_ms budget_ms d =
      open_interface-Leaves device timeout_ms budget_ms d (find_adb_interface devices device)

  -- Where the calls of libusb open, close, claim and release as `Counts` says: an open that works
  -- leaves one handle open and one interface claimed, those of the transport that
  -- it returns, and closing that transport gives both back; an open that fails, also where the device
  -- was opened and its interface cannot be claimed, leaves nothing open and nothing claimed.
  -- The handles that are opened to read serials are among those that are closed.
  pub open_usb-Leaves :
      (id : DeviceId) (timeout_ms budget_ms : ℕ) (d : D)
      → Leaves d (open_usb os devices claims id timeout_ms budget_ms d)
  unfolding open_usb
  open_usb-Leaves id timeout_ms budget_ms d = elim (Bool-cases (devices.init == 0)) [
    | inr failed ↦ rw failed ((refl, refl))
    | inl fine ↦ rw fine (listed devices.device_list)
  ]
    where
      listed :
          (r : ℕ ⊎ List V)
          → Leaves d (elim r [
            | inl code ↦ (err (device_fail devices "libusb_get_device_list" code), d)
            | inr list ↦
                let found = find_device (serials os devices claims) devices list id d in
                open_found os devices claims found.0 timeout_ms budget_ms found.1
          ])
      listed (inl code) = (refl, refl)
      listed (inr list) =
          let found = find_device (serials os devices claims) devices list id d in
          Leaves-behind d found.1 _ (find_device-Same list id d)
            (open_found-Leaves found.0 timeout_ms budget_ms found.1)
