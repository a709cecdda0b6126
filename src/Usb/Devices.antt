-- ===== src/Usb/Devices.antt =====
-- `matches`, `find_device`, `find_adb_interface`, `DeviceId::parse`, `is_present` and `list` of
-- src/usb/usb_transport.cpp: which devices are meant and which of their interfaces is ADB's.
use adbcpp.Base.{
  ℕ, suc, ◌%◌, Bool, true, false, not, ◌&&◌, ◌||◌, ◌==◌, if◌then◌else◌, List, [], ◌∷◌, ◌++◌, Option,
  none, some, String, length, take, drop, is_empty, codes, find, starts_with, eq_bytes, bit_and,
  ◌⊎◌, inl, inr,
}
use adbcpp.Outcome.{Error, Result, ok, err, stuck, error, transport, invalid_argument}

pub record DeviceId : Type 0 where
  pub vendor_id : ℕ
  pub product_id : ℕ
  pub serial : List ℕ

-- What the program reads of the descriptors of libusb.
pub record DeviceDescriptor : Type 0 where
  pub id_vendor : ℕ
  pub id_product : ℕ
  pub i_serial_number : ℕ

pub record Endpoint : Type 0 where
  pub bm_attributes : ℕ
  pub b_endpoint_address : ℕ

pub record AltSetting : Type 0 where
  pub b_interface_number : ℕ
  pub b_interface_class : ℕ
  pub b_interface_sub_class : ℕ
  pub b_interface_protocol : ℕ
  pub endpoints : List Endpoint

-- The calls of libusb that look at devices: `V` is a device. An error is a code by its absolute
-- value. The configuration of a device is the list of the alternate settings of its interfaces.
pub record Devices (V : Type 0) : Type 0 where
  pub init : ℕ
  pub device_list : ℕ ⊎ List V
  pub device_descriptor : V → ℕ ⊎ DeviceDescriptor
  pub active_config : V → ℕ ⊎ List (List AltSetting)
  pub first_config : V → ℕ ⊎ List (List AltSetting)
  pub strerror : ℕ → List ℕ

-- The calls of libusb that read a string of a device, over a state `D`: a handle is a number, and a
-- string that cannot be read or is empty is `none`.
pub record Opens (D V : Type 0) : Type 0 where
  pub open_device : V → D → (ℕ ⊎ ℕ) × D
  pub string_descriptor : ℕ → ℕ → D → Option (List ℕ) × D
  pub close_handle : ℕ → D → D

pub record AdbInterface : Type 0 where
  pub number : Option ℕ
  pub endpoint_in : ℕ
  pub endpoint_out : ℕ

-- LIBUSB_TRANSFER_TYPE_MASK and LIBUSB_TRANSFER_TYPE_BULK; LIBUSB_ENDPOINT_DIR_MASK and
-- LIBUSB_ENDPOINT_IN.
abbrev pub is_bulk : Endpoint → Bool
is_bulk e = bit_and e.bm_attributes 3 == 2

abbrev pub is_in : Endpoint → Bool
is_in e = bit_and e.b_endpoint_address 128 == 128

abbrev pub is_adb : AltSetting → Bool
is_adb s =
    s.b_interface_class == 0xff && s.b_interface_sub_class == 0x42 && s.b_interface_protocol == 0x01

-- The loop over the endpoints of an alternate setting.
abbrev pub add_endpoints : List Endpoint → AdbInterface → AdbInterface
add_endpoints [] found = found
add_endpoints (e ∷ rest) found = elim (is_bulk e) [
  | false ↦ add_endpoints rest found
  | true ↦ elim (is_in e) [
    | true ↦ add_endpoints rest (record found { endpoint_in = e.b_endpoint_address })
    | false ↦ add_endpoints rest (record found { endpoint_out = e.b_endpoint_address })
  ]
]

-- The loop over the alternate settings of an interface, which stops at the first that is ADB's.
abbrev pub search_settings : List AltSetting → AdbInterface → AdbInterface
search_settings [] found = found
search_settings (s ∷ rest) found =
    let later = search_settings rest found in
    if not (is_adb s)
    then later
    else add_endpoints s.endpoints (record found { number = some s.b_interface_number })

-- The loop over the interfaces, which goes on while no number is found.
abbrev pub search_interfaces : List (List AltSetting) → AdbInterface → AdbInterface
search_interfaces [] found = found
search_interfaces (i ∷ rest) found = elim found.number [
  | some number ↦ found
  | none ↦ search_interfaces rest (search_settings i found)
]

unfoldable pub matches : DeviceDescriptor → DeviceId → Bool
matches descriptor id =
    if not (id.vendor_id == 0) && not (descriptor.id_vendor == id.vendor_id)
    then false
    else if not (id.product_id == 0) && not (descriptor.id_product == id.product_id)
    then false
    else true

-- What the search leaves, as the result of `find_adb_interface`.
abbrev pub usable : AdbInterface → Option AdbInterface
usable found = elim found.number [
  | none ↦ none
  | some number ↦ if found.endpoint_in == 0 || found.endpoint_out == 0 then none else some found
]

module _ {V : Type 0} (os : Devices V) where
  unfoldable pub device_fail : String → ℕ → Error
  device_fail what code = record {
    code = transport;
    message = what;
    detail = codes ": " ++ os.strerror code;
  }

  unfoldable pub find_adb_interface : V → Result (Option AdbInterface)
  find_adb_interface device =
      let search : List (List AltSetting) → Result (Option AdbInterface) = λ config. ok (
        usable (
          search_interfaces config
            (record { number = none; endpoint_in = 0; endpoint_out = 0 }))) in
      elim (os.active_config device) [
        | inr config ↦ search config
        | inl code ↦ elim (os.first_config device) [
          | inr config ↦ search config
          | inl code' ↦ err (device_fail "libusb_get_config_descriptor" code')
        ]
      ]

abbrev pub or_empty : Option (List ℕ) → List ℕ
or_empty none = []
or_empty (some text) = text

module _ {D V : Type 0} (opens : Opens D V) where
  -- The string of a device behind its open; the handle is closed again.
  abbrev pub read_serial : DeviceDescriptor → (ℕ ⊎ ℕ) × D → List ℕ × D
  read_serial descriptor (inl code, d) = ([], d)
  read_serial descriptor (inr handle, d) =
      let text = opens.string_descriptor handle descriptor.i_serial_number d in
      (or_empty text.0, opens.close_handle handle text.1)

  -- A device that cannot be opened, and one whose string cannot be read, have no serial.
  unfoldable pub device_serial : V → DeviceDescriptor → D → List ℕ × D
  device_serial device descriptor d =
      if descriptor.i_serial_number == 0
      then ([], d)
      else read_serial descriptor (opens.open_device device d)

  -- The tests of the loop of `find_device`: the serial is read only when one was asked for.
  unfoldable pub is_meant : DeviceId → V → DeviceDescriptor → D → Bool × D
  is_meant id device descriptor d =
      let serial = device_serial device descriptor d in
      if not (matches descriptor id)
      then (false, d)
      else if is_empty id.serial
      then (true, d)
      else (eq_bytes serial.0 id.serial, serial.1)

module _ {D V : Type 0} (opens : Opens D V) (os : Devices V) where
  abbrev pub find_device : List V → DeviceId → D → Option V × D
  find_device [] id d = (none, d)
  find_device (device ∷ rest) id d = elim (os.device_descriptor device) [
    | inl code ↦ find_device rest id d
    | inr descriptor ↦
        let meant = is_meant opens id device descriptor d in
        let later = find_device rest id meant.1 in if meant.0 then (some device, meant.1) else later
  ]

  unfoldable pub is_present : DeviceId → D → Result Bool × D
  is_present id d =
      if not (os.init == 0)
      then (err (device_fail os "libusb_init" os.init), d)
      else elim os.device_list [
        | inl code ↦ (ok false, d)
        | inr devices ↦
            let found = find_device devices id d in
            (elim found.0 [ none ↦ ok false | some device ↦ ok true ], found.1)
      ]

  -- The loop of `list`.
  abbrev pub list_devices : List V → D → List DeviceId × D
  list_devices [] d = ([], d)
  list_devices (device ∷ rest) d =
      let skipped = list_devices rest d in
      elim (os.device_descriptor device) [
        | inl code ↦ skipped
        | inr descriptor ↦ elim (find_adb_interface os device) [
          | err e ↦ skipped
          | stuck ↦ skipped
          | ok none ↦ skipped
          | ok (some adb) ↦
              let serial = device_serial opens device descriptor d in
              let more = list_devices rest serial.1 in
              (
                record {
                  vendor_id = descriptor.id_vendor;
                  product_id = descriptor.id_product;
                  serial = serial.0;
                }
                    ∷ more.0,
                more.1,
              )
        ]
      ]

  unfoldable pub list : D → Result (List DeviceId) × D
  list d =
      if not (os.init == 0)
      then (err (device_fail os "libusb_init" os.init), d)
      else elim os.device_list [
        | inl code ↦ (err (device_fail os "libusb_get_device_list" code), d)
        | inr devices ↦ let found = list_devices devices d in (ok found.0, found.1)
      ]

-- `DeviceId::parse`. `stoul` is that of the standard library in base 16, where `none` is an
-- exception; the value is cast to 16 bits.
unfoldable pub parse : (List ℕ → Option ℕ) → List ℕ → Result DeviceId
parse stoul text =
    let pair : Option ℕ → Option ℕ → Result DeviceId = λ v p. elim v [
      | none ↦ err (error invalid_argument "VID:PID must be hexadecimal")
      | some vendor ↦ elim p [
        | none ↦ err (error invalid_argument "VID:PID must be hexadecimal")
        | some product ↦
            ok (record { vendor_id = vendor % 65536; product_id = product % 65536; serial = [] })
      ]
    ] in
    if starts_with (codes "serial:") text
    then (if length text == 7
        then err (error invalid_argument "serial: needs a serial number")
        else ok (record { vendor_id = 0; product_id = 0; serial = drop 7 text }))
    else elim (find (codes ":") text) [
      | none ↦ err (error invalid_argument "expected VID:PID or serial:<serial>")
      | some colon ↦
          if colon == 0 || suc colon == length text
          then err (error invalid_argument "expected VID:PID or serial:<serial>")
          else pair (stoul (take colon text)) (stoul (drop (suc colon) text))
    ]
