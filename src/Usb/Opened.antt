-- ===== src/Usb/Opened.antt =====
-- What `UsbTransport::open` of src/usb/usb_transport.cpp returns.
use adbcpp.Base.{
  ℕ, ◌≡◌, refl, true, Bool-cases, inl, inr, ◌⊎◌, ◌==◌, Option, none, some, List, arith,
}
use adbcpp.Outcome.{Result, ok, err, stuck}
use adbcpp.Usb.Channel.{Libusb, Usb}
use adbcpp.Usb.Bounds.{IsUsb, Fits, Call, run_all, run_all-IsUsb}
use adbcpp.Usb.Devices.{
  DeviceId, AdbInterface, Devices, device_fail, find_device, find_adb_interface,
}
use adbcpp.Usb.Opening.{
  Claims, found_as, serial_of, serials, claim_answer, open_device_answer, open_interface,
  open_found, open_usb,
}

module _ {D V : Type 0} (os : Libusb D) (devices : Devices V) (claims : Claims D V) where
  -- A transport that is opened has claimed its interface by a handle, and its buffer is in order.
  abbrev pub IsOpen : Result (Usb D) × D → Type 0
  IsOpen (ok u, d) =
      IsUsb u × (u.claimed ≡ true) × ((handle : ℕ) × (u.handle ≡ some handle)) × (u.bus ≡ d)
  IsOpen (err e, d) = Unit
  IsOpen (stuck, d) = Unit

  claim_answer-IsOpen :
      (adb : AdbInterface) (serial : List ℕ) (timeout_ms budget_ms : ℕ) (d : D) (handle : ℕ)
      (r : ℕ × D)
      → IsOpen (
          claim_answer os devices claims
            (found_as os devices claims adb serial timeout_ms budget_ms d)
            handle
            r)
  claim_answer-IsOpen adb serial timeout_ms budget_ms d handle (code, after) =
      elim (Bool-cases (code == 0)) [
        | inl fine ↦
            rw fine
              ((record { within = omega arith; sized = omega arith }, refl, (handle, refl), refl))
        | inr failed ↦ rw failed tt
      ]

  open_device_answer-IsOpen :
      (adb : AdbInterface) (serial : List ℕ) (timeout_ms budget_ms : ℕ) (d : D) (r : (ℕ ⊎ ℕ) × D)
      → IsOpen (
          open_device_answer os devices claims
            (found_as os devices claims adb serial timeout_ms budget_ms d)
            r)
  open_device_answer-IsOpen adb serial timeout_ms budget_ms d (inl code, after) = tt
  open_device_answer-IsOpen adb serial timeout_ms budget_ms d (inr handle, after) =
      claim_answer-IsOpen adb serial timeout_ms budget_ms d handle _

  open_interface-IsOpen :
      (device : V) (timeout_ms budget_ms : ℕ) (d : D) (r : Result (Option AdbInterface))
      → IsOpen (open_interface os devices claims device timeout_ms budget_ms d r)
  open_interface-IsOpen device timeout_ms budget_ms d (err e) = tt
  open_interface-IsOpen device timeout_ms budget_ms d stuck = tt
  open_interface-IsOpen device timeout_ms budget_ms d (ok none) = tt
  open_interface-IsOpen device timeout_ms budget_ms d (ok (some adb)) =
      let serial = serial_of os devices claims device d in
      open_device_answer-IsOpen adb serial.0 timeout_ms budget_ms serial.1
        (claims.open_device device serial.1)

  open_found-IsOpen :
      (found : Option V) (timeout_ms budget_ms : ℕ) (d : D)
      → IsOpen (open_found os devices claims found timeout_ms budget_ms d)
  open_found-IsOpen none timeout_ms budget_ms d = tt
  open_found-IsOpen (some device) timeout_ms budget_ms d =
      open_interface-IsOpen device timeout_ms budget_ms d (find_adb_interface devices device)

  open_usb-IsOpen :
      (id : DeviceId) (timeout_ms budget_ms : ℕ) (d : D)
      → IsOpen (open_usb os devices claims id timeout_ms budget_ms d)
  unfolding open_usb
  open_usb-IsOpen id timeout_ms budget_ms d = elim (Bool-cases (devices.init == 0)) [
    | inr failed ↦ rw failed tt
    | inl fine ↦ rw fine (listed devices.device_list)
  ]
    where
      listed :
          (r : ℕ ⊎ List V)
          → IsOpen (elim r [
            | inl code ↦ (err (device_fail devices "libusb_get_device_list" code), d)
            | inr list ↦
                let found = find_device (serials os devices claims) devices list id d in
                open_found os devices claims found.0 timeout_ms budget_ms found.1
          ])
      listed (inl code) = tt
      listed (inr list) =
          let found = find_device (serials os devices claims) devices list id d in
          open_found-IsOpen found.0 timeout_ms budget_ms found.1

  -- Where libusb moves no more than a buffer holds, a transport that `open` returned has claimed its
  -- interface, and every sequence of calls on it, failed ones included, keeps the offset within the
  -- buffer and the buffer within 256 KiB.
  pub opened-IsUsb :
      Fits os
      → (id : DeviceId) (timeout_ms budget_ms : ℕ) (d : D) (u : Usb D) (after : D)
        (cs : List (Call os))
      → open_usb os devices claims id timeout_ms budget_ms d ≡ (ok u, after)
      → (u.claimed ≡ true) × IsUsb (run_all os cs u)
  opened-IsUsb fits id timeout_ms budget_ms d u after cs e =
      let (usb, claimed, handle, bus) : IsOpen (ok u, after) =
        rw e at (open_usb-IsOpen id timeout_ms budget_ms d) in
      (claimed, run_all-IsUsb os fits cs u usb)
