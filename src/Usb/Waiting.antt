-- ===== src/Usb/Waiting.antt =====
-- What `wait_readable` of src/usb/usb_transport.cpp buffers for the read that follows.
use adbcpp.Base.{
  ℕ, ◌≤◌, ◌<◌, ◌%◌, ◌≡◌, refl, ap, ◌∙◌, Bool, true, false, List, [], length, take, ◌==◌, ltb, arith,
  ◌||◌, lt→ltb, not_lt→ltb, ==_iff,
}
use adbcpp.Outcome.{Result, ok}
use adbcpp.Usb.Bulk.{Answer}
use adbcpp.Usb.Channel.{
  Libusb, Usb, read_buffer_size, resize, deposit, is_failed, hand_out, bulk_in_transfer,
  read_answer, read, wait_readable,
}
use adbcpp.Usb.Buffering.{resize-deposit, hand_out-bytes, read-buffered, read-empty}

or_true : (b : Bool) → (b || true) ≡ true
or_true true = refl
or_true false = refl

module _ {D : Type 0} (os : Libusb D) where
  -- The transfer of `wait_readable`, which is not repeated.
  abbrev pub asked : ℕ → Usb D → Answer (List ℕ) × D
  asked wait u = os.bulk_in u.handle u.endpoint_in read_buffer_size (wait % 4294967296) u.bus

  -- What a wait leaves that has not failed: the bytes of its transfer, all of them to be read.
  abbrev filled : Usb D → Answer (List ℕ) × D → Usb D
  filled u (a, d) = record u {
    bus = d;
    incoming = resize (length a.moved) (deposit a.moved (resize read_buffer_size u.incoming));
    incoming_offset = 0;
  }

  wait_readable-filled :
      (wait : ℕ) (u : Usb D)
      → length u.incoming ≤ u.incoming_offset
      → is_failed (asked wait u).0 ≡ false
      → ((asked wait u).0.code == 0 || ltb 0 (length (asked wait u).0.moved)) ≡ true
      → wait_readable os wait u ≡ (ok true, filled u (asked wait u))
  unfolding wait_readable
  wait_readable-filled wait u empty fine heard =
      let e = not_lt→ltb u.incoming_offset (length u.incoming) empty in rw (e, fine, heard)

  read-filled :
      (n : ℕ) (u : Usb D) (r : Answer (List ℕ) × D)
      → 0 < length r.0.moved
      → ((read os n (filled u r)).0 ≡ ok (take n r.0.moved))
        × ((read os n (filled u r)).1.bus ≡ r.1)
  unfolding hand_out
  read-filled n u r some_bytes =
      let whole = resize-deposit r.0.moved (resize read_buffer_size u.incoming) in
      let more : 0
          < length
              (resize (length r.0.moved) (deposit r.0.moved (resize read_buffer_size u.incoming))) =
        rw whole some_bytes in
      let buffered = read-buffered os n (filled u r) more in
      (
        ap (λ (t : Result (List ℕ) × Usb D). t.0) buffered
            ∙ hand_out-bytes n (filled u r)
            ∙ ap (λ (t : List ℕ). ok (take n t)) whole,
        ap (λ (t : Result (List ℕ) × Usb D). t.1.bus) buffered,
      )

  -- A wait whose transfer delivers bytes says that the transport is readable, and the next read
  -- returns the first of those bytes without another transfer.
  pub wait_readable-read :
      (wait n : ℕ) (u : Usb D)
      → length u.incoming ≤ u.incoming_offset
      → is_failed (asked wait u).0 ≡ false
      → 0 < length (asked wait u).0.moved
      → ((wait_readable os wait u).0 ≡ ok true)
        × ((read os n (wait_readable os wait u).1).0 ≡ ok (take n (asked wait u).0.moved))
        × ((read os n (wait_readable os wait u).1).1.bus ≡ (asked wait u).1)
  wait_readable-read wait n u empty fine some_bytes =
      let more = lt→ltb 0 (length (asked wait u).0.moved) some_bytes in
      let heard : ((asked wait u).0.code == 0 || ltb 0 (length (asked wait u).0.moved)) ≡ true =
        rw more (or_true ((asked wait u).0.code == 0)) in
      let waits = wait_readable-filled wait u empty fine heard in
      let (bytes, bus) = read-filled n u (asked wait u) some_bytes in
      (
        ap (λ (t : Result Bool × Usb D). t.0) waits,
        ap (λ (t : Result Bool × Usb D). (read os n t.1).0) waits ∙ bytes,
        ap (λ (t : Result Bool × Usb D). (read os n t.1).1.bus) waits ∙ bus,
      )

  -- A zero-length packet makes the transport readable, but it is not kept: the next read asks for
  -- another transfer.
  pub wait_readable-empty_packet :
      (wait n : ℕ) (u : Usb D)
      → length u.incoming ≤ u.incoming_offset
      → (asked wait u).0.code ≡ 0
      → (asked wait u).0.moved ≡ []
      → ((wait_readable os wait u).0 ≡ ok true)
        × (read os n (wait_readable os wait u).1
            ≡ read_answer os n
                (wait_readable os wait u).1
                (bulk_in_transfer os (wait_readable os wait u).1))
  wait_readable-empty_packet wait n u empty code none_moved =
      let zero_code = (==_iff (asked wait u).0.code 0).1 code in
      let fine : is_failed (asked wait u).0 ≡ false = rw zero_code in
      let waits = wait_readable-filled wait u empty fine (rw zero_code) in
      (ap (λ (t : Result Bool × Usb D). t.0) waits, rw waits (again (asked wait u) none_moved))
    where
      again :
          (r : Answer (List ℕ) × D)
          → r.0.moved ≡ []
          → read os n (filled u r)
            ≡ read_answer os n (filled u r) (bulk_in_transfer os (filled u r))
      again r e =
          let whole =
            ap length (resize-deposit r.0.moved (resize read_buffer_size u.incoming) ∙ e) in
          read-empty os n (filled u r) (omega arith)
