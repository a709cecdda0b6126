-- ===== src/Usb/Buffering.antt =====
-- What src/usb/usb_transport.cpp buffers between its reads.
use adbcpp.Base.{
  ℕ, zero, suc, ◌+◌, ◌-◌, ◌≤◌, ◌<◌, ◌≡◌, inl, inr, refl, sym, ap, ◌∙◌, min, true, false, ◌==◌,
  arith, append-nil, take-all, drop-all, le_or_lt, List, [], ◌∷◌, ◌++◌, length, take, drop,
  take-append, drop_add, length-drop, length-append, le→leb, lt→not_leb, Bool-cases,
}
use adbcpp.Outcome.{Result, ok}
use adbcpp.Transport
use adbcpp.Transport.{Arrival, chunk, Link, requeue, read_arrivals}
use adbcpp.Usb.Bulk.{Answer}
use adbcpp.Usb.Channel.{
  Libusb, Usb, read_buffer_size, resize, deposit, is_failed, hand_out, bulk_in_transfer,
  read_answer, read,
}

pub resize-deposit : (bytes buffer : List ℕ) → resize (length bytes) (deposit bytes buffer) ≡ bytes
unfolding resize deposit
resize-deposit bytes buffer =
    let beside : length (bytes ++ drop (length bytes) buffer)
        ≡ length bytes + length (drop (length bytes) buffer) =
      length-append bytes (drop (length bytes) buffer) in
    let none_missing : length bytes - length (bytes ++ drop (length bytes) buffer) ≡ 0 =
      omega arith in
    rw (take-append (length bytes) bytes (drop (length bytes) buffer) refl, none_missing)
      (append-nil bytes)

take-min : (n : ℕ) (xs : List ℕ) → take (min (length xs) n) xs ≡ take n xs
take-min n xs = elim (le_or_lt (length xs) n) [
  | inl short ↦
      let m : min (length xs) n ≡ length xs = omega arith in
      rw (m, take-all (length xs) xs (omega arith), take-all n xs short)
  | inr long ↦ let m : min (length xs) n ≡ n = omega arith in rw m
]

drop-min : (n : ℕ) (xs : List ℕ) → drop (min (length xs) n) xs ≡ drop n xs
drop-min n xs = elim (le_or_lt (length xs) n) [
  | inl short ↦
      let m : min (length xs) n ≡ length xs = omega arith in
      rw (m, drop-all (length xs) xs (omega arith), drop-all n xs short)
  | inr long ↦ let m : min (length xs) n ≡ n = omega arith in rw m
]

nothing_taken : (n : ℕ) (xs : List ℕ) → (length xs == 0) ≡ true → [] ≡ take n xs
nothing_taken n (x ∷ xs) z = absurd (ground arith)
nothing_taken zero [] z = refl
nothing_taken (suc n) [] z = refl

nothing_dropped : (n : ℕ) (xs : List ℕ) → (length xs == 0) ≡ true → xs ≡ drop n xs
nothing_dropped n (x ∷ xs) z = absurd (ground arith)
nothing_dropped zero [] z = refl
nothing_dropped (suc n) [] z = refl

module _ {D : Type 0} where
  -- What is buffered and not handed out yet.
  abbrev pub pending : Usb D → List ℕ
  pending u = drop u.incoming_offset u.incoming

  pub hand_out-bytes : (n : ℕ) (u : Usb D) → (hand_out n u).0 ≡ ok (take n (pending u))
  unfolding hand_out
  hand_out-bytes n u =
      rw (sym (length-drop u.incoming_offset u.incoming)) (rw (take-min n (pending u)))

  pending-hand_out : (n : ℕ) (u : Usb D) → pending (hand_out n u).1 ≡ drop n (pending u)
  unfolding hand_out
  pending-hand_out n u =
      let left = sym (length-drop u.incoming_offset u.incoming) in
      drop_add u.incoming_offset (min (length u.incoming - u.incoming_offset) n) u.incoming
      ∙ ap (λ (k : ℕ). drop (min k n) (pending u)) left
      ∙ drop-min n (pending u)

module _ {D : Type 0} (os : Libusb D) where
  -- What the next read finds: `bytes`, which are buffered or which a transfer delivers.
  pub data Offers (u : Usb D) : List ℕ → Type 0 where
    held : u.incoming_offset < length u.incoming → Offers u (pending u)
    delivered :
        length u.incoming ≤ u.incoming_offset
        → (a : Answer (List ℕ)) (after : D) → bulk_in_transfer os u ≡ (ok a, after)
        → is_failed a ≡ false
        → Offers u a.moved

  abbrev Hands : ℕ → List ℕ → Result (List ℕ) × Usb D → Type 0
  Hands n bytes r = (r.0 ≡ ok (take n bytes)) × (pending r.1 ≡ drop n bytes)

  pub read-buffered :
      (n : ℕ) (u : Usb D) → u.incoming_offset < length u.incoming → read os n u ≡ hand_out n u
  unfolding read
  read-buffered n u more = let e = lt→not_leb u.incoming_offset (length u.incoming) more in rw e

  pub read-empty :
      (n : ℕ) (u : Usb D)
      → length u.incoming ≤ u.incoming_offset
      → read os n u ≡ read_answer os n u (bulk_in_transfer os u)
  unfolding read
  read-empty n u none_left = let e = le→leb (length u.incoming) u.incoming_offset none_left in rw e

  read_answer-Hands :
      (n : ℕ) (u : Usb D) (a : Answer (List ℕ)) (after : D)
      → is_failed a ≡ false
      → Hands n a.moved (read_answer os n u (ok a, after))
  read_answer-Hands n u a after fine =
      let buffer = resize read_buffer_size u.incoming in
      let kept : Usb D = record u {
        bus = after;
        incoming = resize (length a.moved) (deposit a.moved buffer);
        incoming_offset = 0;
      } in
      let whole = resize-deposit a.moved buffer in
      elim (Bool-cases (length a.moved == 0)) [
        | inl none_moved ↦ (
          rw (fine, none_moved) (ap ok (nothing_taken n a.moved none_moved)),
          rw (fine, none_moved) (whole ∙ nothing_dropped n a.moved none_moved),
        )
        | inr moved ↦ (
          rw (fine, moved) (hand_out-bytes n kept ∙ ap (λ (t : List ℕ). ok (take n t)) whole),
          rw (fine, moved) (pending-hand_out n kept ∙ ap (drop n) whole),
        )
      ]

  read-Hands : (n : ℕ) (u : Usb D) (bytes : List ℕ) → Offers u bytes → Hands n bytes (read os n u)
  unfolding read
  read-Hands n u bytes (held more) =
      rw (read-buffered n u more) (hand_out-bytes n u, pending-hand_out n u)
  read-Hands n u bytes (delivered none_left a after runs fine) =
      let empty = le→leb (length u.incoming) u.incoming_offset none_left in
      rw (empty, runs) (read_answer-Hands n u a after fine)

  -- Where bytes are buffered or a transfer delivers some, a read of the USB transport is a read of a
  -- link whose next chunk are these bytes: the
  -- bytes are the same, and what the transport keeps buffered is what the link keeps of the chunk.
  pub read-refines :
      (n : ℕ) (u : Usb D) (bytes : List ℕ) (l : Link) (rest : List Arrival)
      → Offers u bytes
      → l.arrivals ≡ chunk bytes ∷ rest
      → ((read os n u).0 ≡ (Transport.read n l).0)
        × ((Transport.read n l).1.arrivals ≡ requeue (pending (read os n u).1) rest)
  unfolding Transport.read
  read-refines n u bytes l rest o e =
      let (same, left) = read-Hands n u bytes o in
      (
        same ∙ sym (ap (λ (r : List Arrival). (read_arrivals n l r).0) e),
        ap (λ (r : List Arrival). (read_arrivals n l r).1.arrivals) e
            ∙ ap (λ (t : List ℕ). requeue t rest) (sym left),
      )
