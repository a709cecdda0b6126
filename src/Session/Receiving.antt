-- ===== src/Session/Receiving.antt =====
-- `Session::receive` returns the frames that the link delivers.
use adbcpp.Base.{
  ℕ, ◌+◌, ◌≤◌, ◌<◌, ◌≡◌, ◌≢◌, ap, ◌∙◌, List, [], ◌∷◌, ◌++◌, arith, length, length-append,
  append_assoc, take-append, drop-append,
}
use adbcpp.Outcome.{ok}
use adbcpp.Transport.{Arrival, Link, weight}
use adbcpp.Transport.Deliver.{deliverable}
use adbcpp.Protocol.Message.{Message, encode}
use adbcpp.Protocol.Message.RoundTrip.{decode-encode, length-encode}
use adbcpp.Session.{Frame, over, read_exact, receive_payload, receive}
use adbcpp.Session.Reading.{read_exact-Fills}
use adbcpp.Session.Frames.{frame_bytes, IsConsistent, IsFrame}

-- The link with other arrivals to come.
abbrev pub awaiting : Link → List Arrival → Link
awaiting l later = record l { arrivals = later }

-- The frame is returned, and the link goes on with the bytes behind it.
pub record Receives (l : Link) (f : Frame) (rest : List ℕ) : Type 0 where
  pub after : List Arrival
  pub runs : receive (over l) ≡ (ok f, over (awaiting l after))
  pub remains : deliverable after ≡ rest
  pub lighter : weight after < weight l.arrivals

-- `read_exact` on a link that delivers `front` first.
pub read_front :
    (n : ℕ) (l : Link) (front rest : List ℕ)
    → length front ≡ n
    → deliverable l.arrivals ≡ front ++ rest
    → (after : List Arrival) × (read_exact n l ≡ (ok front, record l { arrivals = after }))
      × (deliverable after ≡ rest)
      × (weight after + n ≤ weight l.arrivals)
read_front n l front rest e d =
    let f = read_exact-Fills n l (omega (arith, ap length d, length-append front rest)) in
    (
      f.after,
      f.runs ∙ rw (d, take-append n front rest e),
      f.remains ∙ rw (d, drop-append n front rest e),
      f.lighter,
    )

-- The checks pass on a frame whose header tells the truth.
receive_payload-ok :
    (h : Message) (l : Link) (payload : List ℕ) (later : List Arrival)
    → IsConsistent (record { header = h; payload = payload })
    → h.data_length ≢ 0
    → read_exact h.data_length l ≡ (ok payload, awaiting l later)
    → receive_payload h (over l)
      ≡ (ok (record { header = h; payload = payload }), over (awaiting l later))
unfolding receive_payload
receive_payload-ok h l payload later c n r = ground (arith, c.magic, c.bound, c.check)

receive_payload-empty :
    (h : Message) (l : Link)
    → IsConsistent (record { header = h; payload = [] })
    → h.data_length ≡ 0
    → receive_payload h (over l) ≡ (ok (record { header = h; payload = [] }), over l)
unfolding receive_payload
receive_payload-empty h l c e = ground (arith, c.magic)

-- The step from the header on.
payload_step :
    (h : Message) (p : List ℕ) (l : Link) (rest : List ℕ)
    → IsConsistent (record { header = h; payload = p })
    → deliverable l.arrivals ≡ p ++ rest
    → (after : List Arrival) × (receive_payload h (over l)
        ≡ (ok (record { header = h; payload = p }), over (awaiting l after)))
      × (deliverable after ≡ rest)
      × (weight after ≤ weight l.arrivals)
payload_step h [] l rest c d =
    (l.arrivals, receive_payload-empty h l c (omega (arith, c.size)), d, omega arith)
payload_step h (x ∷ p) l rest c d =
    let (after, runs, remains, lighter) = read_front h.data_length l (x ∷ p) rest c.size d in
    (
      after,
      receive_payload-ok h l (x ∷ p) after c (omega (arith, c.size)) runs,
      remains,
      omega arith,
    )

-- From an open session over a link that delivers a frame first, whatever the chunks, that frame is
-- received, and the link goes on with the bytes behind it.
pub receive-frame :
    (l : Link) (f : Frame) (rest : List ℕ)
    → IsFrame f
    → deliverable l.arrivals ≡ frame_bytes f ++ rest
    → Receives l f rest
unfolding receive
receive-frame l f rest h d =
    let (a1, r1, d1, w1) =
      read_front 24 l (encode f.header) (f.payload ++ rest) (length-encode f.header)
        (d ∙ append_assoc (encode f.header) f.payload rest) in
    let (a2, r2, d2, w2) = payload_step f.header f.payload (awaiting l a1) rest h.consistent d1 in
    record {
      after = a2;
      runs = rw (r1, decode-encode f.header h.words) r2;
      remains = d2;
      lighter = omega arith;
    }
