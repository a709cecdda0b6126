-- ===== src/Session/Totality.antt =====
-- Every way in which `Session::receive` can end.
use adbcpp.Base.{
  ℕ, Bool, zero, suc, ◌≤◌, ◌<◌, ◌≡◌, ◌≢◌, ◌⊎◌, inl, inr, refl, sym, ap, ◌∙◌, List, [], ◌∷◌, ◌++◌,
  arith, true, false, not, ◌&&◌, length-take, append_assoc, append-nil, length, take,
  take-append-drop, ◌==◌, ==_iff, ltb, ltb→lt, ltb→not_lt, Bool-cases, String, AllBytes,
}
use adbcpp.Outcome.{Error, Result, ok, err, error, protocol}
use adbcpp.Transport
use adbcpp.Transport.{Arrival, Link, weight}
use adbcpp.Transport.Deliver.{deliverable}
use adbcpp.Protocol.Commands.{max_data}
use adbcpp.Protocol.Message.{Message, encode, decode, compute_magic, compute_checksum}
use adbcpp.Protocol.Message.RoundTrip.{encode-decode}
use adbcpp.Session.{
  Frame, Session, over, read_exact, framing_error, receive_payload, receive, close,
}
use adbcpp.Session.Reading.{Fills, Breaks, read_exact-cases}
use adbcpp.Session.Frames.{frame_bytes, IsConsistent}
use adbcpp.Session.Receiving.{awaiting}

-- The session that a framing error leaves: closed, and its transport with it.
abbrev pub desynchronized : Link → Session
desynchronized l = record { link = record l { closed = true }; closed = true }

-- A frame whose header does not tell the truth. The checksum is read only when there is a payload,
-- and behind it.
abbrev pub IsFaulty : Message → List ℕ → Type 0
IsFaulty h payload =
    (h.magic ≢ compute_magic h.command)
    ⊎ ((max_data < h.data_length)
        ⊎ ((length payload ≡ h.data_length)
            × (h.data_check ≢ 0)
            × (h.data_check ≢ compute_checksum payload)))

-- A payload of which the link does not deliver all, behind a header that could be right.
abbrev pub IsCut : Message → List ℕ → Type 0
IsCut h rest =
    (h.magic ≡ compute_magic h.command) × (h.data_length ≤ max_data) × (length rest < h.data_length)

-- How the part of `receive` behind the header `h` ends.
pub data PayloadEnd (h : Message) (l : Link) (r : Result Frame × Session) : Type 0 where
  whole :
      (payload : List ℕ) (after : List Arrival)
      → r ≡ (ok (record { header = h; payload = payload }), over (awaiting l after))
      → IsConsistent (record { header = h; payload = payload })
      → deliverable l.arrivals ≡ payload ++ deliverable after
      → weight after ≤ weight l.arrivals
      → PayloadEnd h l r
  faulty :
      (message : String) (payload : List ℕ) (after : List Arrival)
      → r ≡ (err (error protocol message), desynchronized (awaiting l after))
      → deliverable l.arrivals ≡ payload ++ deliverable after
      → IsFaulty h payload
      → PayloadEnd h l r
  broken :
      (e : Error) (after : List Arrival)
      → r ≡ (err e, over (awaiting l after))
      → IsCut h (deliverable l.arrivals)
      → weight after ≤ weight l.arrivals
      → PayloadEnd h l r

not_==→ne : (a b : ℕ) → (a == b) ≡ false → a ≢ b
not_==→ne a b h = ground arith

AllBytes-take : (n : ℕ) (xs : List ℕ) → AllBytes xs → AllBytes (take n xs)
AllBytes-take zero xs h = tt
AllBytes-take (suc n) [] h = tt
AllBytes-take (suc n) (x ∷ xs) (hx, h) = (hx, AllBytes-take n xs h)

-- The bytes of a filled buffer, and those behind it.
Fills-splits :
    {n : ℕ} {l : Link} {r : Result (List ℕ) × Link} (f : Fills n l r)
    → deliverable l.arrivals ≡ take n (deliverable l.arrivals) ++ deliverable f.after
Fills-splits {n} {l} f = rw f.remains (sym (take-append-drop n (deliverable l.arrivals)))

module _ (h : Message) (l : Link) where
  abbrev Ended : Type 0
  Ended = PayloadEnd h l (receive_payload h (over l))

  bad_magic : (h.magic == compute_magic h.command) ≡ false → Ended
  bad_magic b =
      faulty "the header magic does not match its command" [] l.arrivals
        (unfold receive_payload framing_error close Transport.close in rw b) refl
        (inl (not_==→ne h.magic (compute_magic h.command) b))

  too_long : (h.magic == compute_magic h.command) ≡ true → ltb max_data h.data_length ≡ true → Ended
  too_long m b =
      faulty "the header payload length is past the maximum" [] l.arrivals
        (unfold receive_payload framing_error close Transport.close in rw (m, b)) refl
        (inr (inl (ltb→lt max_data h.data_length b)))

  no_payload :
      (h.magic == compute_magic h.command) ≡ true
      → ltb max_data h.data_length ≡ false
      → (h.data_length == 0) ≡ true
      → Ended
  no_payload m b z =
      let e = (==_iff h.data_length 0).0 z in
      whole [] l.arrivals (unfold receive_payload in rw (m, b, z))
        (record {
          magic = (==_iff h.magic (compute_magic h.command)).0 m;
          size = sym e;
          bound = ltb→not_lt max_data h.data_length b;
          check = inl e;
        })
        refl (omega arith)

  abbrev mismatch : List ℕ → Bool
  mismatch payload = not (h.data_check == 0) && not (h.data_check == compute_checksum payload)

  mismatch_lem :
      (payload : List ℕ)
      → mismatch payload ≡ true
      → (h.data_check ≢ 0) × (h.data_check ≢ compute_checksum payload)
  mismatch_lem payload b = (ground arith, ground arith)

  match_lem :
      (payload : List ℕ)
      → mismatch payload ≡ false
      → (h.data_check ≡ 0) ⊎ (h.data_check ≡ compute_checksum payload)
  match_lem payload b = grind arith

  module _ (m : (h.magic == compute_magic h.command) ≡ true)
      (b : ltb max_data h.data_length ≡ false) (z : (h.data_length == 0) ≡ false) where
    broken_payload : Breaks h.data_length l (read_exact h.data_length l) → Ended
    broken_payload k =
        broken k.reason k.after (unfold receive_payload in rw (m, b, z, k.runs))
          (
            (==_iff h.magic (compute_magic h.command)).0 m,
            ltb→not_lt max_data h.data_length b,
            k.lacks,
          )
          k.lighter

    filled_payload : Fills h.data_length l (read_exact h.data_length l) → Ended
    filled_payload f =
        let payload : List ℕ = take h.data_length (deliverable l.arrivals) in
        elim (Bool-cases (mismatch payload)) [
          | inl wrong ↦
              faulty "the header payload checksum does not match the payload" payload f.after
                (unfold receive_payload framing_error close Transport.close in
                  rw (m, b, z, f.runs, wrong))
                (Fills-splits f)
                (inr (
                  inr (
                    omega (arith, length-take h.data_length (deliverable l.arrivals), f.enough),
                    (mismatch_lem payload wrong).0,
                    (mismatch_lem payload wrong).1,
                  )))
          | inr right ↦
              whole payload f.after (unfold receive_payload in rw (m, b, z, f.runs, right))
                (record {
                  magic = (==_iff h.magic (compute_magic h.command)).0 m;
                  size =
                      omega (arith, length-take h.data_length (deliverable l.arrivals), f.enough);
                  bound = ltb→not_lt max_data h.data_length b;
                  check = inr (match_lem payload right);
                })
                (Fills-splits f) (omega (arith, f.lighter))
        ]

    with_payload : Ended
    with_payload = elim (read_exact-cases h.data_length l) [
      | inl f ↦ filled_payload f
      | inr k ↦ broken_payload k
    ]

  pub receive_payload-Ended : Ended
  receive_payload-Ended = elim (Bool-cases (h.magic == compute_magic h.command)) [
    | inr b ↦ bad_magic b
    | inl m ↦ elim (Bool-cases (ltb max_data h.data_length)) [
      | inl b ↦ too_long m b
      | inr b ↦ elim (Bool-cases (h.data_length == 0)) [
        | inl z ↦ no_payload m b z
        | inr z ↦ with_payload m b z
      ]
    ]
  ]

-- Bytes that end within a header, or within the payload of a header that could be right.
abbrev pub IsShort : List ℕ → Type 0
IsShort bytes =
    (length bytes < 24)
    ⊎ ((h : Message) × (rest : List ℕ) × (bytes ≡ encode h ++ rest) × IsCut h rest)

-- How `receive` ends on an open session over `l`: with a frame that the link delivers and whose
-- header tells the truth, with a framing error, which closes, or with an error because the link does
-- not deliver a whole frame.
pub data ReceiveEnd (l : Link) (r : Result Frame × Session) : Type 0 where
  frame :
      (f : Frame) (after : List Arrival)
      → r ≡ (ok f, over (awaiting l after))
      → IsConsistent f
      → deliverable l.arrivals ≡ frame_bytes f ++ deliverable after
      → weight after < weight l.arrivals
      → ReceiveEnd l r
  framing :
      (message : String) (f : Frame) (after : List Arrival)
      → r ≡ (err (error protocol message), desynchronized (awaiting l after))
      → deliverable l.arrivals ≡ frame_bytes f ++ deliverable after
      → IsFaulty f.header f.payload
      → ReceiveEnd l r
  failure :
      (e : Error) (after : List Arrival)
      → r ≡ (err e, over (awaiting l after))
      → IsShort (deliverable l.arrivals)
      → weight after ≤ weight l.arrivals
      → ReceiveEnd l r

module _ (l : Link) (f : Fills 24 l (read_exact 24 l))
    (bytes : AllBytes (deliverable l.arrivals)) where
  abbrev header : Message
  header = decode (take 24 (deliverable l.arrivals))

  receive_behind : receive (over l) ≡ receive_payload header (over (awaiting l f.after))
  unfolding receive
  receive_behind = rw f.runs

  header_bytes : encode header ≡ take 24 (deliverable l.arrivals)
  header_bytes =
      encode-decode (take 24 (deliverable l.arrivals))
        (AllBytes-take 24 (deliverable l.arrivals) bytes)
        (omega (arith, length-take 24 (deliverable l.arrivals), f.enough))

  header_splits :
      (payload rest : List ℕ)
      → deliverable f.after ≡ payload ++ rest
      → deliverable l.arrivals ≡ (encode header ++ payload) ++ rest
  header_splits payload rest d =
      Fills-splits f
      ∙ ap (λ t. t ++ deliverable f.after) (sym header_bytes)
      ∙ ap (λ t. encode header ++ t) d
      ∙ sym (append_assoc (encode header) payload rest)

  behind_header :
      PayloadEnd header (awaiting l f.after) (receive_payload header (over (awaiting l f.after)))
      → ReceiveEnd l (receive (over l))
  behind_header (whole payload after r c d w) =
      frame (record { header = header; payload = payload }) after (receive_behind ∙ r) c
        (header_splits payload (deliverable after) d) (omega (arith, f.lighter))
  behind_header (faulty message payload after r d x) =
      framing message (record { header = header; payload = payload }) after (receive_behind ∙ r)
        (header_splits payload (deliverable after) d) x
  behind_header (broken e after r x w) =
      failure e after (receive_behind ∙ r)
        (inr (
          header,
          deliverable f.after,
          header_splits [] (deliverable f.after) refl
              ∙ ap (λ t. t ++ deliverable f.after) (append-nil (encode header)),
          x,
        ))
        (omega (arith, f.lighter))

-- On an open session over a link that delivers bytes, `receive` ends in one of three ways: with a
-- frame whose header tells the truth and whose bytes are the next that the link delivers; with a
-- protocol error for a frame with a fault, which closes the session and the transport; or with an
-- error that leaves the session open, where the bytes that the link delivers end within a header or
-- within the payload of a header without a fault. It does not run out of rounds.
pub receive-ReceiveEnd :
    (l : Link) → AllBytes (deliverable l.arrivals) → ReceiveEnd l (receive (over l))
receive-ReceiveEnd l bytes = elim (read_exact-cases 24 l) [
  | inl f ↦ behind_header l f bytes (receive_payload-Ended (header l f bytes) (awaiting l f.after))
  | inr k ↦ failure k.reason k.after (unfold receive in rw k.runs) (inl k.lacks) k.lighter
]
