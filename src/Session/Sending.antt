-- ===== src/Session/Sending.antt =====
-- `Session::send`, and what a peer receives of it.
use adbcpp.Base.{
  ℕ, suc, ◌≡◌, ◌≢◌, refl, sym, ap, ◌∙◌, List, [], ◌∷◌, ◌++◌, arith, true, false, length,
  append_assoc, append-nil, ◌==◌, ==_iff,
}
use adbcpp.Outcome.{Status, ok, err, error, transport, invalid_argument}
use adbcpp.Transport
use adbcpp.Transport.{Arrival, Link, weight}
use adbcpp.Transport.Deliver.{deliverable}
use adbcpp.Protocol.Message.{Message, encode}
use adbcpp.Session.{Frame, Session, over, send, receive, close, move_from}
use adbcpp.Session.Frames.{frame_bytes, IsFrame}
use adbcpp.Session.Receiving.{Receives, receive-frame}

-- The transfers that carry a payload: none if it is empty.
abbrev pub payload_transfers : List ℕ → List (List ℕ)
payload_transfers [] = []
payload_transfers (b ∷ bs) = (b ∷ bs) ∷ []

-- The transfers that carry a frame: the header, and the payload on its own.
abbrev pub transfers : Frame → List (List ℕ)
transfers f = encode f.header ∷ payload_transfers f.payload

-- The transfers of frames in a row.
abbrev pub all_transfers : List Frame → List (List ℕ)
all_transfers [] = []
all_transfers (f ∷ fs) = transfers f ++ all_transfers fs

pub all_transfers-append :
    (fs gs : List Frame) → all_transfers (fs ++ gs) ≡ all_transfers fs ++ all_transfers gs
all_transfers-append [] gs = refl
all_transfers-append (f ∷ fs) gs =
    ap (λ t. transfers f ++ t) (all_transfers-append fs gs)
    ∙ sym (append_assoc (transfers f) (all_transfers fs) (all_transfers gs))

-- All that was written, in one piece.
abbrev pub flatten : List (List ℕ) → List ℕ
flatten [] = []
flatten (bs ∷ rest) = bs ++ flatten rest

flatten-payload_transfers : (p : List ℕ) → flatten (payload_transfers p) ≡ p
flatten-payload_transfers [] = refl
flatten-payload_transfers (b ∷ bs) = append-nil (b ∷ bs)

pub flatten-transfers : (f : Frame) → flatten (transfers f) ≡ frame_bytes f
flatten-transfers f = ap (λ t. encode f.header ++ t) (flatten-payload_transfers f.payload)

-- The link after transfers that it accepted.
abbrev pub sending : Link → List (List ℕ) → Link
sending l more = record l { written = l.written ++ more }

pub write-accepted :
    (l : Link) (bytes : List ℕ)
    → l.verdicts ≡ []
    → Transport.write bytes l ≡ (ok tt, sending l (bytes ∷ []))
unfolding Transport.write
write-accepted l bytes v = rw v

pub send_both :
    (l : Link) (h : Message) (payload : List ℕ)
    → l.verdicts ≡ []
    → h.data_length ≡ length payload
    → send h payload (over l) ≡ (ok tt, over (sending l (encode h ∷ payload_transfers payload)))
unfolding send
send_both l h [] v e =
    let t : (h.data_length == 0) ≡ true = (==_iff h.data_length 0).1 e in
    rw (t, write-accepted l (encode h) v)
send_both l h (b ∷ bs) v e =
    let t : (h.data_length == suc (length bs)) ≡ true =
      (==_iff h.data_length (suc (length bs))).1 e in
    rw (t, write-accepted l (encode h) v)
      (ap (λ (x : Status × Link). (x.0, over x.1))
        (write-accepted (sending l (encode h ∷ [])) (b ∷ bs) v
          ∙ ap (λ w. (ok tt, record l { written = w }))
              (append_assoc l.written (encode h ∷ []) ((b ∷ bs) ∷ []))))

-- On a link that accepts every transfer, `send` writes the frame, the header and the payload as
-- transfers of their own, and nothing else.
pub send-transfers :
    (l : Link) (f : Frame)
    → l.verdicts ≡ []
    → f.header.data_length ≡ length f.payload
    → send f.header f.payload (over l) ≡ (ok tt, over (sending l (transfers f)))
send-transfers l f v e = send_both l f.header f.payload v e

-- A header that does not claim the length of its payload is refused, and nothing is written.
pub send-mismatch :
    (s : Session) (h : Message) (payload : List ℕ)
    → s.closed ≡ false
    → h.data_length ≢ length payload
    → send h payload s
      ≡ (err (error invalid_argument "the header data_length does not match the payload"), s)
unfolding send
send-mismatch s h payload c e = ground arith

-- A closed session fails on every call and does not touch its transport.
pub closed_session :
    (s : Session) (h : Message) (payload : List ℕ)
    → s.closed ≡ true
    → (send h payload s ≡ (err (error transport "the session is closed"), s))
      × (receive s ≡ (err (error transport "the session is closed"), s))
      × (close s ≡ s)
unfolding send receive close
closed_session s h payload c = (rw c, rw c, rw c)

-- What one session sends, another receives: whatever the chunks in which the peer's link delivers
-- the bytes that `send` wrote, the peer gets the frame and goes on with what follows.
pub receive-send :
    (l peer : Link) (f : Frame) (rest : List ℕ)
    → l.verdicts ≡ []
    → IsFrame f
    → (sent : List (List ℕ)) × (send f.header f.payload (over l) ≡ (ok tt, over (sending l sent)))
      × (deliverable peer.arrivals ≡ flatten sent ++ rest → Receives peer f rest)
receive-send l peer f rest v h = (
  transfers f,
  send-transfers l f v (sym h.consistent.size),
  λ d. receive-frame peer f rest h (d ∙ ap (λ t. t ++ rest) (flatten-transfers f)),
)

-- The session that was moved from cannot close the transport that the new one uses.
pub close-move_from :
    (s : Session) → (close (move_from s).1 ≡ (move_from s).1) × ((move_from s).0 ≡ s)
unfolding close move_from
close-move_from s = (refl, refl)
