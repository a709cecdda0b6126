-- ===== src/Usb/Opening.antt =====
-- `UsbTransport::open` of src/usb/usb_transport.cpp, and the destructor that runs when it fails. The
-- lists and the context of libusb that it frees are not modelled.
use adbcpp.Base.{
  ℕ, true, false, not, ◌==◌, if◌then◌else◌, List, [], Option, none, some, ◌⊎◌, inl, inr,
}
use adbcpp.Outcome.{Result, ok, err, stuck, error, transport}
use adbcpp.Outcome.Exec.{Exec}
use adbcpp.Usb.Channel.{Libusb, Usb, close}
use adbcpp.Usb.Devices.{
  DeviceId, AdbInterface, Devices, Opens, device_fail, device_serial, find_device,
  find_adb_interface,
}

-- The calls of libusb that take a device into use; a code is an error by its absolute value.
pub record Claims (D V : Type 0) : Type 0 where
  pub open_device : V → D → (ℕ ⊎ ℕ) × D
  pub string_descriptor : ℕ → ℕ → D → Option (List ℕ) × D
  pub set_auto_detach : ℕ → D → D
  pub claim_interface : ℕ → Option ℕ → D → ℕ × D
  pub clear_halt : ℕ → ℕ → D → D

module _ {D V : Type 0} (os : Libusb D) (devices : Devices V) (claims : Claims D V) where
  -- What the transport is before the device is opened.
  abbrev pub found_as : AdbInterface → List ℕ → ℕ → ℕ → D → Usb D
  found_as adb serial timeout_ms budget_ms d = record {
    bus = d;
    handle = none;
    interface_number = adb.number;
    endpoint_in = adb.endpoint_in;
    endpoint_out = adb.endpoint_out;
    claimed = false;
    incoming = [];
    incoming_offset = 0;
    serial = serial;
    transfer_timeout_ms = timeout_ms;
    transfer_budget_ms = budget_ms;
  }

  -- The calls that read a serial.
  abbrev pub serials : Opens D V
  serials = record {
    open_device = claims.open_device;
    string_descriptor = claims.string_descriptor;
    close_handle = os.close_handle;
  }

  -- The serial that is read at open.
  unfoldable pub serial_of : V → D → List ℕ × D
  serial_of device d = elim (devices.device_descriptor device) [
    | inl code ↦ ([], d)
    | inr descriptor ↦ device_serial serials device descriptor d
  ]

  -- The transport behind its claim: the destructor closes the handle that was opened.
  abbrev pub claim_answer : Usb D → ℕ → ℕ × D → Result (Usb D) × D
  claim_answer u handle (code, d) =
      let halted =
        claims.clear_halt handle u.endpoint_out (claims.clear_halt handle u.endpoint_in d) in
      if not (code == 0)
      then (
        err (device_fail devices "libusb_claim_interface" code),
        (close os (record u { bus = d; handle = some handle })).bus,
      )
      else (ok (record u { bus = halted; handle = some handle; claimed = true }), halted)

  abbrev pub open_device_answer : Usb D → (ℕ ⊎ ℕ) × D → Result (Usb D) × D
  open_device_answer u (inl code, d) = (err (device_fail devices "libusb_open" code), d)
  open_device_answer u (inr handle, d) =
      claim_answer u handle
        (claims.claim_interface handle u.interface_number (claims.set_auto_detach handle d))

  abbrev pub open_interface : V → ℕ → ℕ → D → Result (Option AdbInterface) → Result (Usb D) × D
  open_interface device timeout_ms budget_ms d (err e) = (err e, d)
  open_interface device timeout_ms budget_ms d stuck = (stuck, d)
  open_interface device timeout_ms budget_ms d (ok none) =
      (err (error transport "ADB USB interface not found"), d)
  open_interface device timeout_ms budget_ms d (ok (some adb)) =
      let serial = serial_of device d in
      open_device_answer (found_as adb serial.0 timeout_ms budget_ms serial.1)
        (claims.open_device device serial.1)

  abbrev pub open_found : Option V → ℕ → ℕ → D → Result (Usb D) × D
  open_found none timeout_ms budget_ms d =
      (err (error transport "no USB device matching the given id"), d)
  open_found (some device) timeout_ms budget_ms d =
      open_interface device timeout_ms budget_ms d (find_adb_interface devices device)

  unfoldable pub open_usb : DeviceId → ℕ → ℕ → Exec D (Usb D)
  open_usb id timeout_ms budget_ms d =
      if not (devices.init == 0)
      then (err (device_fail devices "libusb_init" devices.init), d)
      else elim devices.device_list [
        | inl code ↦ (err (device_fail devices "libusb_get_device_list" code), d)
        | inr list ↦
            let found = find_device serials devices list id d in
            open_found found.0 timeout_ms budget_ms found.1
      ]
