-- ===== src/Usb/Channel.antt =====
-- `UsbTransport` of src/usb/usb_transport.cpp: reading, writing, waiting and closing.
use adbcpp.Base.{
  ℕ, ◌+◌, ◌-◌, ◌%◌, min, Bool, true, false, not, ◌&&◌, ◌||◌, ◌==◌, ltb, leb, if◌then◌else◌, List,
  [], ◌++◌, Option, none, some, String, length, take, drop, replicate, is_empty, codes,
}
use adbcpp.Outcome.{Error, Result, Status, ok, err, stuck, error, transport}
use adbcpp.Outcome.Exec.{Exec}
use adbcpp.Usb.Bulk.{Answer, timeout, bulk_transfer}

-- libusb with the device behind it, and the clock. A bulk transfer has the handle, the endpoint, the
-- length of the buffer or the bytes to send, and the timeout; what comes in stands at the front of
-- the buffer. Time passes in the calls.
pub record Libusb (D : Type 0) : Type 0 where
  pub bulk_in : Option ℕ → ℕ → ℕ → ℕ → D → Answer (List ℕ) × D
  pub bulk_out : Option ℕ → ℕ → List ℕ → ℕ → D → Answer ℕ × D
  pub now : D → ℕ
  pub strerror : ℕ → List ℕ
  pub release_interface : ℕ → Option ℕ → D → D
  pub close_handle : ℕ → D → D

pub record Usb (D : Type 0) : Type 0 where
  pub bus : D
  pub handle : Option ℕ
  pub interface_number : Option ℕ
  pub endpoint_in : ℕ
  pub endpoint_out : ℕ
  pub claimed : Bool
  pub incoming : List ℕ
  pub incoming_offset : ℕ
  pub serial : List ℕ
  pub transfer_timeout_ms : ℕ
  pub transfer_budget_ms : ℕ

abbrev pub read_buffer_size : ℕ
read_buffer_size = 262144

-- `std::vector::resize`
unfoldable pub resize : ℕ → List ℕ → List ℕ
resize n xs = take n xs ++ replicate (n - length xs) 0

-- The buffer behind a transfer that put `bytes` at its front.
unfoldable pub deposit : List ℕ → List ℕ → List ℕ
deposit bytes buffer = bytes ++ drop (length bytes) buffer

-- The test that tells a failed transfer in: a timeout that delivered bytes is none.
abbrev pub is_failed : Answer (List ℕ) → Bool
is_failed a = not (a.code == 0) && not (a.code == timeout && ltb 0 (length a.moved))

-- The end of `read`, which hands out what is buffered.
unfoldable pub hand_out : {D : Type 0} → ℕ → Usb D → Result (List ℕ) × Usb D
hand_out n u =
    let count = min (length u.incoming - u.incoming_offset) n in
    (
      ok (take count (drop u.incoming_offset u.incoming)),
      record u { incoming_offset = u.incoming_offset + count },
    )

module _ {D : Type 0} (os : Libusb D) where
  unfoldable pub fail : String → ℕ → Error
  fail what code = record {
    code = transport;
    message = what;
    detail = codes ": " ++ os.strerror code;
  }

  -- `bulk_transfer` on the two endpoints.
  unfoldable pub bulk_in_transfer : Usb D → Result (Answer (List ℕ)) × D
  bulk_in_transfer u =
      bulk_transfer (os.bulk_in u.handle u.endpoint_in read_buffer_size u.transfer_timeout_ms)
        length os.now u.transfer_budget_ms u.bus

  unfoldable pub bulk_out_transfer : List ℕ → Usb D → Result (Answer ℕ) × D
  bulk_out_transfer bytes u =
      bulk_transfer (os.bulk_out u.handle u.endpoint_out bytes u.transfer_timeout_ms) (λ (n : ℕ). n)
        os.now u.transfer_budget_ms u.bus

  -- `read` behind its transfer.
  abbrev pub read_answer : ℕ → Usb D → Result (Answer (List ℕ)) × D → Result (List ℕ) × Usb D
  read_answer n u (stuck, d) = (stuck, record u { bus = d })
  read_answer n u (err e, d) = (err e, record u { bus = d })
  read_answer n u (ok a, d) =
      let filled = deposit a.moved (resize read_buffer_size u.incoming) in
      let kept : Usb D = record u {
        bus = d;
        incoming = resize (length a.moved) filled;
        incoming_offset = 0;
      } in
      if is_failed a
      then (
        err (fail "libusb_bulk_transfer (read)" a.code),
        record u { bus = d; incoming = filled },
      )
      else if length a.moved == 0
      then (ok [], kept)
      else hand_out n kept

  unfoldable pub read : ℕ → Exec (Usb D) (List ℕ)
  read n u =
      if leb (length u.incoming) u.incoming_offset
      then read_answer n u (bulk_in_transfer u)
      else hand_out n u

  -- `write` behind its transfer.
  abbrev pub write_answer : List ℕ → Usb D → Result (Answer ℕ) × D → Status × Usb D
  write_answer bytes u (stuck, d) = (stuck, record u { bus = d })
  write_answer bytes u (err e, d) = (err e, record u { bus = d })
  write_answer bytes u (ok a, d) = (
    (if not (a.code == 0)
        then (if a.code == timeout && ltb 0 a.moved
            then err (error transport "short USB write: the stream is desynchronized")
            else err (fail "libusb_bulk_transfer (write)" a.code))
        else if not (a.moved == length bytes)
        then err (error transport "short USB write")
        else ok tt),
    record u { bus = d },
  )

  unfoldable pub write : List ℕ → Exec (Usb D) Unit
  write bytes u =
      if is_empty bytes then (ok tt, u) else write_answer bytes u (bulk_out_transfer bytes u)

  -- `wait_readable` behind its transfer.
  abbrev pub wait_answer : Usb D → Answer (List ℕ) × D → Result Bool × Usb D
  wait_answer u (a, d) =
      if is_failed a
      then (
        err (fail "libusb_bulk_transfer (wait)" a.code),
        record u { bus = d; incoming = []; incoming_offset = 0 },
      )
      else (
        ok (a.code == 0 || ltb 0 (length a.moved)),
        record u {
          bus = d;
          incoming = resize (length a.moved) (deposit a.moved (resize read_buffer_size u.incoming));
          incoming_offset = 0;
        },
      )

  -- The timeout is cast to `unsigned int`.
  unfoldable pub wait_readable : ℕ → Exec (Usb D) Bool
  wait_readable wait u =
      if ltb u.incoming_offset (length u.incoming)
      then (ok true, u)
      else wait_answer u
          (os.bulk_in u.handle u.endpoint_in read_buffer_size (wait % 4294967296) u.bus)

  abbrev pub close_open : ℕ → Usb D → Usb D
  close_open handle u =
      if u.claimed
      then record u {
        bus = os.close_handle handle (os.release_interface handle u.interface_number u.bus);
        claimed = false;
        handle = none;
      }
      else record u { bus = os.close_handle handle u.bus; handle = none }

  unfoldable pub close : Usb D → Usb D
  close u = elim u.handle [ none ↦ u | some handle ↦ close_open handle u ]

unfoldable pub set_transfer_timeout : {D : Type 0} → ℕ → Usb D → Usb D
set_transfer_timeout milliseconds u = record u { transfer_timeout_ms = milliseconds }

unfoldable pub set_transfer_budget : {D : Type 0} → ℕ → Usb D → Usb D
set_transfer_budget milliseconds u = record u { transfer_budget_ms = milliseconds }
