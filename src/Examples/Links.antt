-- ===== src/Examples/Links.antt =====
-- The USB transport at concrete inputs.
use adbcpp.Base.{
  replicate, ℕ, suc, ◌+◌, ◌≤◌, ◌<◌, ◌≡◌, refl, true, false, List, [], ◌∷◌, Option, none, some, inl,
  inr, length, take, drop, ap, ◌⊎◌, min, arith, length-take, codes,
}
use adbcpp.Outcome.{ok, err}
use adbcpp.Transport
use adbcpp.Transport.{Link, chunk, requeue}
use adbcpp.Usb.Bulk
use adbcpp.Usb.Bulk.{Answer, timeout, bulk_transfer, Settles, bulk_transfer-Settles}
use adbcpp.Usb.Channel.{Libusb, Usb, bulk_in_transfer, fail, read}
use adbcpp.Usb.Buffering.{pending, delivered, read-refines}
use adbcpp.Usb.Bounds.{IsUsb, Call, read_call, wait_call, write_call, close_call, run_all}
use adbcpp.Usb.Faults.{read-failed_stale}
use adbcpp.Usb.Devices.{
  matches, device_serial, is_meant, DeviceId, DeviceDescriptor, AltSetting, Devices, Opens,
  find_device, find_adb_interface,
}
use adbcpp.Usb.Finding.{FirstOf, Suits, tested, find_device-FirstOf}
use adbcpp.Usb.Opening.{Claims, serial_of, open_usb}
use adbcpp.Usb.Leaving.{Counts, Leaves, open_usb-Leaves}
use adbcpp.Usb.Opened.{opened-IsUsb}
use adbcpp.Usb.Interfaces.{IsAdb, find_adb_interface-IsAdb}

-- A device that has some transfers to deliver, and a clock.
abbrev Desk : Type 0
Desk = ℕ × List (List ℕ)

abbrev deliver : ℕ → ℕ → Desk → Answer (List ℕ) × Desk
deliver n wait (t, []) = (record { code = timeout; moved = [] }, (t + suc wait, []))
deliver n wait (t, bytes ∷ rest) = (record { code = 0; moved = take n bytes }, (t, rest))

abbrev toy_bus : Libusb Desk
toy_bus = record {
  bulk_in = λ handle endpoint n wait d. deliver n wait d;
  bulk_out = λ handle endpoint bytes wait d. (record { code = 0; moved = length bytes }, d);
  now = λ (d : Desk). d.0;
  strerror = λ code. codes "timeout";
  release_interface = λ handle number d. d;
  close_handle = λ handle d. d;
}

toy_bus-fits :
    (handle : Option ℕ) (endpoint n wait : ℕ) (d : Desk) → length (deliver n wait d).0.moved ≤ n
toy_bus-fits handle endpoint n wait (t, []) = omega arith
toy_bus-fits handle endpoint n wait (t, bytes ∷ rest) = let cut = length-take n bytes in omega arith

deliver-passes :
    (d : Desk)
    → Bulk.IsSilent (deliver 8 5) length (λ (e : Desk). e.0) (deliver 8 5 d).0
    → d.0 < (deliver 8 5 d).1.0
deliver-passes (t, []) h = omega arith
deliver-passes (t, bytes ∷ rest) h = absurd (omega (arith, h.0))

bulk_transfer-Settles_example :
    Settles
      (deliver 8 5)
      length
      (λ (e : Desk). e.0)
      20
      (0, [])
      (bulk_transfer (deliver 8 5) length (λ (e : Desk). e.0) 20 (0, []))
bulk_transfer-Settles_example =
    bulk_transfer-Settles (deliver 8 5) length (λ (e : Desk). e.0) deliver-passes 20 (0, [])

abbrev opened_usb : Desk → Usb Desk
opened_usb d = record {
  bus = d;
  handle = some 1;
  interface_number = some 0;
  endpoint_in = 129;
  endpoint_out = 2;
  claimed = true;
  incoming = [];
  incoming_offset = 0;
  serial = [];
  transfer_timeout_ms = 5;
  transfer_budget_ms = 10;
}

abbrev busy : Usb Desk
busy = opened_usb (0, (1 ∷ 2 ∷ 3 ∷ []) ∷ [])

abbrev quiet : Usb Desk
quiet = opened_usb (0, [])

abbrev one_chunk : Link
one_chunk = record {
  arrivals = chunk (1 ∷ 2 ∷ 3 ∷ []) ∷ [];
  verdicts = [];
  written = [];
  closed = false;
  serial = [];
}

busy-delivers :
    bulk_in_transfer toy_bus busy ≡ (ok (record { code = 0; moved = 1 ∷ 2 ∷ 3 ∷ [] }), (0, []))
unfolding bulk_in_transfer bulk_transfer
busy-delivers = refl

read-refines_example :
    ((read toy_bus 2 busy).0 ≡ (Transport.read 2 one_chunk).0)
    × ((Transport.read 2 one_chunk).1.arrivals ≡ requeue (pending (read toy_bus 2 busy).1) [])
read-refines_example =
    read-refines toy_bus 2 busy (1 ∷ 2 ∷ 3 ∷ []) one_chunk []
      (delivered (omega arith) (record { code = 0; moved = 1 ∷ 2 ∷ 3 ∷ [] }) (0, []) busy-delivers
        refl)
      refl

quiet-fails :
    bulk_in_transfer toy_bus quiet ≡ (ok (record { code = timeout; moved = [] }), (12, []))
unfolding bulk_in_transfer bulk_transfer
quiet-fails = refl

read-failed_stale_example :
    ((read toy_bus 24 quiet).0 ≡ err (fail toy_bus "libusb_bulk_transfer (read)" timeout))
    × ((read toy_bus 24 (read toy_bus 24 quiet).1).0 ≡ ok (replicate (min 262144 24) 0))
    × ((read toy_bus 24 (read toy_bus 24 quiet).1).1.bus ≡ (12, []))
read-failed_stale_example =
    read-failed_stale toy_bus 24 24 quiet (record { code = timeout; moved = [] }) (12, [])
      (omega arith) (omega arith) quiet-fails refl (omega arith)

-- Two devices, of which the second is a phone.
abbrev toy_descriptor : ℕ → DeviceDescriptor
toy_descriptor v = record { id_vendor = 6353; id_product = v; i_serial_number = 3 }

abbrev adb_setting : AltSetting
adb_setting = record {
  b_interface_number = 3;
  b_interface_class = 255;
  b_interface_sub_class = 66;
  b_interface_protocol = 1;
  endpoints =
      record { bm_attributes = 2; b_endpoint_address = 129 }
      ∷ record { bm_attributes = 2; b_endpoint_address = 2 }
      ∷ [];
}

abbrev toy_config : List (List AltSetting)
toy_config = [] ∷ (adb_setting ∷ []) ∷ []

abbrev toy_devices : Devices ℕ
toy_devices = record {
  init = 0;
  device_list = inr (1 ∷ 2 ∷ []);
  device_descriptor = λ v. inr (toy_descriptor v);
  active_config = λ v. inr toy_config;
  first_config = λ v. inl 5;
  strerror = λ code. codes "not found";
}

abbrev second : DeviceId
second = record { vendor_id = 0; product_id = 2; serial = [] }

-- Every device opens, and has the serial X1.
abbrev toy_opens : Opens ℕ ℕ
toy_opens = record {
  open_device = λ v d. (inr v, suc d);
  string_descriptor = λ h i d. (some (codes "X1"), d);
  close_handle = λ h d. d;
}

find_device-FirstOf_example :
    FirstOf
      (Suits toy_opens toy_devices second)
      (tested toy_opens toy_devices second)
      (1 ∷ 2 ∷ [])
      0
      (find_device toy_opens toy_devices (1 ∷ 2 ∷ []) second 0)
find_device-FirstOf_example = find_device-FirstOf toy_opens toy_devices (1 ∷ 2 ∷ []) second 0

found-adb :
    find_adb_interface toy_devices 2
    ≡ ok (some (record { number = some 3; endpoint_in = 129; endpoint_out = 2 }))
unfolding find_adb_interface
found-adb = refl

find_adb_interface-IsAdb_example :
    IsAdb toy_config (record { number = some 3; endpoint_in = 129; endpoint_out = 2 })
find_adb_interface-IsAdb_example =
    find_adb_interface-IsAdb toy_devices 2 toy_config
      (record { number = some 3; endpoint_in = 129; endpoint_out = 2 }) refl found-adb

-- A device that can be opened and claimed.
abbrev toy_claims : Claims Desk ℕ
toy_claims = record {
  open_device = λ v d. (inr 1, d);
  string_descriptor = λ h i d. (none, d);
  set_auto_detach = λ handle d. d;
  claim_interface = λ handle number d. (0, d);
  clear_halt = λ handle endpoint d. d;
}

abbrev stocked : Desk
stocked = (0, (1 ∷ 2 ∷ 3 ∷ []) ∷ [])

abbrev claimed_usb : Usb Desk
claimed_usb = record {
  bus = stocked;
  handle = some 1;
  interface_number = some 3;
  endpoint_in = 129;
  endpoint_out = 2;
  claimed = true;
  incoming = [];
  incoming_offset = 0;
  serial = [];
  transfer_timeout_ms = 5;
  transfer_budget_ms = 10;
}

opens : open_usb toy_bus toy_devices toy_claims second 5 10 stocked ≡ (ok claimed_usb, stocked)
unfolding open_usb find_adb_interface matches device_serial serial_of is_meant
opens = refl

abbrev some_calls : List (Call toy_bus)
some_calls = read_call 2 ∷ wait_call 7 ∷ write_call (4 ∷ []) ∷ read_call 9 ∷ close_call ∷ []

opened-IsUsb_example : (claimed_usb.claimed ≡ true) × IsUsb (run_all toy_bus some_calls claimed_usb)
opened-IsUsb_example =
    opened-IsUsb toy_bus toy_devices toy_claims toy_bus-fits second 5 10 stocked claimed_usb stocked
      some_calls opens

-- A device that is opened and whose interface is busy. The state is the open handles and the claimed
-- interfaces.
abbrev Held : Type 0
Held = List ℕ × List (Option ℕ)

abbrev held_bus : Libusb Held
held_bus = record {
  bulk_in = λ handle endpoint n wait d. (record { code = 0; moved = [] }, d);
  bulk_out = λ handle endpoint bytes wait d. (record { code = 0; moved = length bytes }, d);
  now = λ d. 0;
  strerror = λ code. codes "busy";
  release_interface = λ handle number (d : Held). (d.0, drop 1 d.1);
  close_handle = λ handle (d : Held). (drop 1 d.0, d.1);
}

abbrev busy_claims : Claims Held ℕ
busy_claims = record {
  open_device = λ v (d : Held). (inr 1, (1 ∷ d.0, d.1));
  string_descriptor = λ h i d. (some (codes "X1"), d);
  set_auto_detach = λ handle d. d;
  claim_interface = λ handle number d. (6, d);
  clear_halt = λ handle endpoint d. d;
}

abbrev open_handles : Held → List ℕ
open_handles d = d.0

abbrev claimed_interfaces : Held → List (Option ℕ)
claimed_interfaces d = d.1

one_handle : (handle : ℕ) → ◌≡◌ {A = ℕ ⊎ ℕ} (inr 1) (inr handle) → 1 ≡ handle
one_handle handle e = cc

busy_claims-Counts : Counts held_bus busy_claims open_handles claimed_interfaces
busy_claims-Counts = record {
  opens = λ device d handle e. ap (λ h. h ∷ d.0) (one_handle handle e);
  opens_none = λ device d code e. absurd (cc);
  open_claims = λ device d. refl;
  read_keeps = λ h i d. refl;
  read_claims = λ h i d. refl;
  detach_keeps = λ h d. refl;
  detach_claims = λ h d. refl;
  claim_keeps = λ h n d. refl;
  claim_claims = λ h n d e. absurd (omega (arith, e));
  claim_fails = λ h n d e. refl;
  halt_keeps = λ h e d. refl;
  halt_claims = λ h e d. refl;
  release_keeps = λ h n d. refl;
  releases = λ h n rest d e. ap (drop 1) e;
  closes = λ h rest d e. ap (drop 1) e;
  close_claims = λ h d. refl;
}

open_usb-Leaves_example :
    Leaves held_bus toy_devices busy_claims open_handles claimed_interfaces busy_claims-Counts
      ([], [])
      (open_usb held_bus toy_devices busy_claims second 5 10 ([], []))
open_usb-Leaves_example =
    open_usb-Leaves held_bus toy_devices busy_claims open_handles claimed_interfaces
      busy_claims-Counts second 5 10 ([], [])
