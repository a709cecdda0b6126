-- ===== src/Usb/Faults.antt =====
-- What a failed read of src/usb/usb_transport.cpp leaves behind, and the outcomes of a write.
use adbcpp.Base.{
  replicate, zero, suc, ◌+◌, [], ◌++◌, ℕ, ◌-◌, ◌≤◌, ◌<◌, ◌≡◌, ◌≢◌, refl, ap, ◌∙◌, min, true, inl,
  inr, List, ◌∷◌, length, take, drop, length-take, Bool-cases, ◌==◌, ltb, arith, le→leb, ==_iff,
  ◌↔◌, ◌&&◌,
}
use adbcpp.Outcome.{Error, Result, ok, err}
use adbcpp.Usb.Bulk.{Answer, timeout}
use adbcpp.Usb.Channel.{
  Libusb, Usb, read_buffer_size, resize, deposit, is_failed, hand_out, bulk_in_transfer, fail,
  bulk_out_transfer, read, write,
}
use adbcpp.Usb.Buffering.{read-buffered}
use adbcpp.Usb.Bounds.{length-resize, length-deposit}

not_ok : {A : Type 0} {e : Error} {a : A} → err e ≢ ok a
not_ok h = cc

abbrev zeros : ℕ → List ℕ
zeros n = replicate n 0

-- What is behind some bytes of a list, with the count that is left as a number of its own.
drop-zeros : (k n m : ℕ) → m ≡ n - k → drop k (zeros n) ≡ zeros m
drop-zeros zero n m h = let e : n ≡ m = omega arith in ap zeros e
drop-zeros (suc k) zero m h = let e : 0 ≡ m = omega arith in ap zeros e
drop-zeros (suc k) (suc n) m h = drop-zeros k n m (omega arith)

take-zeros : (k n : ℕ) → k ≤ n → take k (zeros n) ≡ zeros k
take-zeros zero n h = refl
take-zeros (suc k) zero h = absurd (omega arith)
take-zeros (suc k) (suc n) h = ap (λ t. 0 ∷ t) (take-zeros k n (omega arith))

drop-past : (k m : ℕ) (xs ys : List ℕ) → k ≡ length xs + m → drop k (xs ++ ys) ≡ drop m ys
drop-past k m [] ys h = ap (λ t. drop t ys) (omega arith)
drop-past zero m (x ∷ xs) ys h = absurd (omega arith)
drop-past (suc k) m (x ∷ xs) ys h = drop-past k m xs ys (omega arith)

drop-nil : (k : ℕ) → drop {A = ℕ} k [] ≡ []
drop-nil zero = refl
drop-nil (suc k) = refl

drop-drop : (j k n : ℕ) (xs : List ℕ) → n ≡ k + j → drop j (drop k xs) ≡ drop n xs
drop-drop j zero n xs h = ap (λ t. drop t xs) (omega arith)
drop-drop j (suc k) zero xs h = absurd (omega arith)
drop-drop j (suc k) (suc n) [] h = drop-nil j
drop-drop j (suc k) (suc n) (x ∷ xs) h = drop-drop j k n xs (omega arith)

drop-resize :
    (k n : ℕ) (xs : List ℕ) → length xs ≤ k → length xs ≤ n → drop k (resize n xs) ≡ zeros (n - k)
unfolding resize
drop-resize k n xs h f =
    let cut = length-take n xs in
    drop-past k (k - length (take n xs)) (take n xs) (zeros (n - length xs)) (omega arith)
    ∙ drop-zeros (k - length (take n xs)) (n - length xs) (n - k) (omega arith)

drop-deposit :
    (k : ℕ) (bytes buffer : List ℕ)
    → length bytes ≤ k
    → drop k (deposit bytes buffer) ≡ drop k buffer
unfolding deposit
drop-deposit k bytes buffer h =
    drop-past k (k - length bytes) bytes (drop (length bytes) buffer) (omega arith)
    ∙ drop-drop (k - length bytes) (length bytes) k buffer (omega arith)

hand_out-zeros :
    {D : Type 0} (n left : ℕ) (u : Usb D)
    → length u.incoming - u.incoming_offset ≡ left
    → drop u.incoming_offset u.incoming ≡ zeros left
    → ((hand_out n u).0 ≡ ok (zeros (min left n))) × ((hand_out n u).1.bus ≡ u.bus)
unfolding hand_out
hand_out-zeros n left u h z = (rw (h, z) (ap ok (take-zeros (min left n) left (omega arith))), refl)

module _ {D : Type 0} (os : Libusb D) where
  -- The state that a failed read leaves: the whole buffer, with the offset of the read before.
  abbrev spoiled : Usb D → Answer (List ℕ) → D → Usb D
  spoiled u a d = record u {
    bus = d;
    incoming = deposit a.moved (resize read_buffer_size u.incoming);
  }

  read-spoiled :
      (n : ℕ) (u : Usb D) (a : Answer (List ℕ)) (d : D)
      → length u.incoming ≤ u.incoming_offset
      → bulk_in_transfer os u ≡ (ok a, d)
      → is_failed a ≡ true
      → read os n u ≡ (err (fail os "libusb_bulk_transfer (read)" a.code), spoiled u a d)
  unfolding read
  read-spoiled n u a d empty runs failed =
      let e = le→leb (length u.incoming) u.incoming_offset empty in rw (e, runs, failed)

  -- With nothing buffered, a read whose transfer fails leaves the buffer at its full size with the
  -- offset of the read before. Where the transfer moved no byte past that offset, the next read asks
  -- for no transfer and returns zeros, which no device sent: all that are asked for, up to the end of
  -- the buffer.
  pub read-failed_stale :
      (n m : ℕ) (u : Usb D) (a : Answer (List ℕ)) (d : D)
      → length u.incoming ≤ u.incoming_offset
      → u.incoming_offset < read_buffer_size
      → bulk_in_transfer os u ≡ (ok a, d)
      → is_failed a ≡ true
      → length a.moved ≤ u.incoming_offset
      → ((read os n u).0 ≡ err (fail os "libusb_bulk_transfer (read)" a.code))
        × ((read os m (read os n u).1).0
            ≡ ok (replicate (min (read_buffer_size - u.incoming_offset) m) 0))
        × ((read os m (read os n u).1).1.bus ≡ d)
  read-failed_stale n m u a d empty inside runs failed small =
      let spoilt = read-spoiled n u a d empty runs failed in
      let whole = length-resize read_buffer_size u.incoming in
      let size = length-deposit a.moved (resize read_buffer_size u.incoming) (omega arith) in
      let again = read-buffered os m (spoiled u a d) (omega arith) in
      let (hands, bus) =
        hand_out-zeros m (read_buffer_size - u.incoming_offset) (spoiled u a d) (omega arith) (
          drop-deposit u.incoming_offset a.moved (resize read_buffer_size u.incoming) small
          ∙ drop-resize u.incoming_offset read_buffer_size u.incoming empty (omega arith)) in
      (
        ap (λ (r : Result (List ℕ) × Usb D). r.0) spoilt,
        ap (λ (r : Result (List ℕ) × Usb D). (read os m r.1).0) spoilt
            ∙ ap (λ (r : Result (List ℕ) × Usb D). r.0) again
            ∙ hands,
        ap (λ (r : Result (List ℕ) × Usb D). (read os m r.1).1.bus) spoilt
            ∙ ap (λ (r : Result (List ℕ) × Usb D). r.1.bus) again
            ∙ bus,
      )

  -- A write of some bytes succeeds just where libusb reports no error and the device took them all.
  pub write-ok_iff :
      (b : ℕ) (bytes : List ℕ) (u : Usb D) (a : Answer ℕ) (d : D)
      → bulk_out_transfer os (b ∷ bytes) u ≡ (ok a, d)
      → ((write os (b ∷ bytes) u).0 ≡ ok tt) ↔ ((a.code ≡ 0) × (a.moved ≡ length (b ∷ bytes)))
  unfolding write
  write-ok_iff b bytes u a d runs = elim (Bool-cases (a.code == 0)) [
    | inr code ↦ elim (Bool-cases (a.code == timeout && ltb 0 a.moved)) [
      | inl desync ↦
          (λ h. absurd (not_ok (rw (runs, code, desync) at h)), λ (c, m). absurd (grind arith))
      | inr other ↦
          (λ h. absurd (not_ok (rw (runs, code, other) at h)), λ (c, m). absurd (grind arith))
    ]
    | inl code ↦ elim (Bool-cases (a.moved == length (b ∷ bytes))) [
      | inr moved ↦
          (λ h. absurd (not_ok (rw (runs, code, moved) at h)), λ (c, m). absurd (grind arith))
      | inl moved ↦
          (λ h. ((==_iff _ _).0 code, (==_iff _ _).0 moved), λ (c, m). rw (runs, code, moved))
    ]
  ]
