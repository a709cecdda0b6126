-- ===== src/Usb/Bounds.antt =====
-- The buffer of src/usb/usb_transport.cpp over sequences of calls.
use adbcpp.Base.{
  ℕ, ◌-◌, ◌%◌, ◌≤◌, ◌≡◌, refl, ap, inl, inr, List, [], ◌∷◌, Option, none, some, length, take, drop,
  replicate, length-append, length-take, length-drop, Bool-cases, ◌==◌, ltb, leb, arith, zero, suc,
}
use adbcpp.Outcome.{Result, ok, err, stuck}
use adbcpp.Usb.Bulk.{Answer, Answers, bulk_transfer-Answers}
use adbcpp.Usb.Channel.{
  Libusb, Usb, read_buffer_size, resize, deposit, is_failed, hand_out, bulk_in_transfer,
  bulk_out_transfer, read_answer, read, write_answer, write, wait_answer, wait_readable, close,
  close_open, set_transfer_timeout, set_transfer_budget,
}

length-replicate : (n a : ℕ) → length (replicate n a) ≡ n
length-replicate zero a = refl
length-replicate (suc n) a = ap suc (length-replicate n a)

pub length-resize : (n : ℕ) (xs : List ℕ) → length (resize n xs) ≡ n
unfolding resize
length-resize n xs =
    let sum = length-append (take n xs) (replicate (n - length xs) 0) in
    let front = length-take n xs in let back = length-replicate (n - length xs) 0 in omega arith

pub length-deposit :
    (bytes buffer : List ℕ)
    → length bytes ≤ length buffer
    → length (deposit bytes buffer) ≡ length buffer
unfolding deposit
length-deposit bytes buffer h =
    let sum = length-append bytes (drop (length bytes) buffer) in
    let back = length-drop (length bytes) buffer in omega arith

pub record IsUsb {D : Type 0} (u : Usb D) : Type 0 where
  pub within : u.incoming_offset ≤ length u.incoming
  pub sized : length u.incoming ≤ read_buffer_size

-- libusb moves no more into a buffer than its length.
abbrev pub Fits : {D : Type 0} → Libusb D → Type 0
Fits {D} os =
    (handle : Option ℕ) (endpoint n wait : ℕ) (d : D)
    → length (os.bulk_in handle endpoint n wait d).0.moved ≤ n

abbrev pub Small : Answer (List ℕ) → Type 0
Small a = length a.moved ≤ read_buffer_size

hand_out-IsUsb : {D : Type 0} (n : ℕ) (u : Usb D) → IsUsb u → IsUsb (hand_out n u).1
unfolding hand_out
hand_out-IsUsb n u v = record { within = let w = v.within in omega arith; sized = v.sized }

module _ {D : Type 0} (os : Libusb D) where
  -- The calls of a transport, in the order that they are made.
  pub data Call : Type 0 where
    read_call wait_call timeout_call budget_call : ℕ → Call
    write_call : List ℕ → Call
    close_call : Call

  abbrev pub run_call : Call → Usb D → Usb D
  run_call (read_call n) u = (read os n u).1
  run_call (wait_call wait) u = (wait_readable os wait u).1
  run_call (timeout_call milliseconds) u = set_transfer_timeout milliseconds u
  run_call (budget_call milliseconds) u = set_transfer_budget milliseconds u
  run_call (write_call bytes) u = (write os bytes u).1
  run_call close_call u = close os u

  read_answer-IsUsb :
      (n : ℕ) (u : Usb D) (r : Result (Answer (List ℕ)) × D)
      → Answers Small r
      → IsUsb u
      → IsUsb (read_answer os n u r).1
  read_answer-IsUsb n u (stuck, d) small v = record { within = v.within; sized = v.sized }
  read_answer-IsUsb n u (err e, d) small v = record { within = v.within; sized = v.sized }
  read_answer-IsUsb n u (ok a, d) small v =
      let buffer = resize read_buffer_size u.incoming in
      let whole = length-resize read_buffer_size u.incoming in
      let filled = length-deposit a.moved buffer (omega arith) in
      let cut = length-resize (length a.moved) (deposit a.moved buffer) in
      let after : Usb D = record u {
        bus = d;
        incoming = resize (length a.moved) (deposit a.moved buffer);
        incoming_offset = 0;
      } in
      let kept : IsUsb after = record { within = omega arith; sized = omega arith } in
      elim (Bool-cases (is_failed a)) [
        | inl failed ↦
            let within = v.within in
            let sized = v.sized in rw failed (record { within = omega arith; sized = omega arith })
        | inr fine ↦ elim (Bool-cases (length a.moved == 0)) [
          | inl none_moved ↦ rw (fine, none_moved) kept
          | inr moved ↦ rw (fine, moved) (hand_out-IsUsb n after kept)
        ]
      ]

  bulk_in_transfer-Answers : Fits os → (u : Usb D) → Answers Small (bulk_in_transfer os u)
  unfolding bulk_in_transfer
  bulk_in_transfer-Answers fits u =
      bulk_transfer-Answers _ _ _ Small
        (λ d. fits u.handle u.endpoint_in read_buffer_size u.transfer_timeout_ms d)
        u.transfer_budget_ms u.bus

  read-IsUsb : Fits os → (n : ℕ) (u : Usb D) → IsUsb u → IsUsb (read os n u).1
  unfolding read
  read-IsUsb fits n u v = elim (Bool-cases (leb (length u.incoming) u.incoming_offset)) [
    | inl empty ↦
        rw empty (read_answer-IsUsb n u (bulk_in_transfer os u) (bulk_in_transfer-Answers fits u) v)
    | inr more ↦ rw more (hand_out-IsUsb n u v)
  ]

  wait_answer-IsUsb :
      (u : Usb D) (a : Answer (List ℕ)) (d : D) → Small a → IsUsb (wait_answer os u (a, d)).1
  wait_answer-IsUsb u a d small =
      let cut =
        length-resize (length a.moved) (deposit a.moved (resize read_buffer_size u.incoming)) in
      elim (Bool-cases (is_failed a)) [
        | inl failed ↦ rw failed (record { within = omega arith; sized = omega arith })
        | inr fine ↦ rw fine (record { within = omega arith; sized = omega arith })
      ]

  wait_readable-IsUsb :
      Fits os → (wait : ℕ) (u : Usb D) → IsUsb u → IsUsb (wait_readable os wait u).1
  unfolding wait_readable
  wait_readable-IsUsb fits wait u v =
      let asked = os.bulk_in u.handle u.endpoint_in read_buffer_size (wait % 4294967296) u.bus in
      elim (Bool-cases (ltb u.incoming_offset (length u.incoming))) [
        | inl more ↦ rw more v
        | inr empty ↦ rw empty (wait_answer-IsUsb u asked.0 asked.1 (fits _ _ _ _ _))
      ]

  write-IsUsb : (bytes : List ℕ) (u : Usb D) → IsUsb u → IsUsb (write os bytes u).1
  unfolding write
  write-IsUsb [] u v = v
  write-IsUsb (b ∷ bytes) u v = written (bulk_out_transfer os (b ∷ bytes) u)
    where
      written : (r : Result (Answer ℕ) × D) → IsUsb (write_answer os (b ∷ bytes) u r).1
      written (ok a, d) = record { within = v.within; sized = v.sized }
      written (err e, d) = record { within = v.within; sized = v.sized }
      written (stuck, d) = record { within = v.within; sized = v.sized }

  close-IsUsb : (u : Usb D) → IsUsb u → IsUsb (close os u)
  unfolding close
  close-IsUsb u v = closed u.handle
    where
      closed : (h : Option ℕ) → IsUsb (elim h [ none ↦ u | some handle ↦ close_open os handle u ])
      closed none = v
      closed (some handle) = elim (Bool-cases u.claimed) [
        | inl c ↦ rw c (record { within = v.within; sized = v.sized })
        | inr c ↦ rw c (record { within = v.within; sized = v.sized })
      ]

  run_call-IsUsb : Fits os → (c : Call) (u : Usb D) → IsUsb u → IsUsb (run_call c u)
  unfolding set_transfer_timeout set_transfer_budget
  run_call-IsUsb fits (read_call n) u v = read-IsUsb fits n u v
  run_call-IsUsb fits (wait_call wait) u v = wait_readable-IsUsb fits wait u v
  run_call-IsUsb fits (timeout_call milliseconds) u v = record {
    within = v.within;
    sized = v.sized;
  }
  run_call-IsUsb fits (budget_call milliseconds) u v = record { within = v.within; sized = v.sized }
  run_call-IsUsb fits (write_call bytes) u v = write-IsUsb bytes u v
  run_call-IsUsb fits close_call u v = close-IsUsb u v

  abbrev pub run_all : List Call → Usb D → Usb D
  run_all [] u = u
  run_all (c ∷ cs) u = run_all cs (run_call c u)

  -- Where libusb moves no more than a buffer holds, every sequence of calls, failed ones included,
  -- keeps the offset within the buffer and the buffer within 256 KiB.
  pub run_all-IsUsb : Fits os → (cs : List Call) (u : Usb D) → IsUsb u → IsUsb (run_all cs u)
  run_all-IsUsb fits [] u v = v
  run_all-IsUsb fits (c ∷ cs) u v = run_all-IsUsb fits cs (run_call c u) (run_call-IsUsb fits c u v)
