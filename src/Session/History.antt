-- ===== src/Session/History.antt =====
-- Sequences of calls of a session of src/session.cpp.
use adbcpp.Base.{
  ◌≡◌, ◌≢◌, ◌⊎◌, ◌≤◌, ◌<◌, inl, inr, refl, ap, ◌∙◌, List, [], ◌∷◌, true, length, arith, ◌==◌,
  ==_iff, Bool-cases, take, drop,
}
use adbcpp.Outcome.{Error, Result, err}
use adbcpp.Transport
use adbcpp.Transport.{Arrival, Link}
use adbcpp.Transport.Deliver.{deliverable}
use adbcpp.Protocol.Message.{Message, decode}
use adbcpp.Session.{Frame, Session, over, send, receive, receive_payload, close}
use adbcpp.Session.Reading.{read_exact-cases}
use adbcpp.Session.Receiving.{awaiting}
use adbcpp.Session.Sending.{transfers, sending, send-transfers, closed_session}
use adbcpp.Session.Totality.{
  desynchronized, PayloadEnd, whole, faulty, broken, receive_payload-Ended,
}

pub data Call : Type 0 where
  send_call : Frame → Call
  receive_call close_call : Call

abbrev pub call : Call → Session → Session
call (send_call f) s = (send f.header f.payload s).1
call receive_call s = (receive s).1
call close_call s = close s

abbrev pub run_all : List Call → Session → Session
run_all [] s = s
run_all (c ∷ cs) s = run_all cs (call c s)

-- What a call of `receive` can do on an open session over `l`: the link ends within the header, or
-- the header is that of the next 24 bytes, and `PayloadEnd` says what comes of it.
pub data Reads (l : Link) (r : Result Frame × Session) : Type 0 where
  headless :
      (e : Error) (after : List Arrival)
      → length (deliverable l.arrivals) < 24
      → r ≡ (err e, over (awaiting l after))
      → Reads l r
  headed :
      (body : List Arrival)
      → 24 ≤ length (deliverable l.arrivals)
      → deliverable body ≡ drop 24 (deliverable l.arrivals)
      → PayloadEnd (decode (take 24 (deliverable l.arrivals))) (awaiting l body) r
      → Reads l r

-- From an open session over a link, through some calls, to a session. A frame is written as its
-- transfers where its header claims the length of the payload, and a call of `send` does nothing
-- otherwise; a call of `receive` that ends with a framing error closes the session and its transport,
-- as `close` does, and behind either the calls that follow do nothing.
pub data History : Link → List Call → Session → Type 0 where
  finished : (l : Link) → History l [] (over l)
  sent :
      (l : Link) (f : Frame) (cs : List Call) (s : Session)
      → f.header.data_length ≡ length f.payload
      → History (sending l (transfers f)) cs s
      → History l (send_call f ∷ cs) s
  refused :
      (l : Link) (f : Frame) (cs : List Call) (s : Session)
      → f.header.data_length ≢ length f.payload
      → History l cs s
      → History l (send_call f ∷ cs) s
  received :
      (l : Link) (cs : List Call) (s : Session) (r : Result Frame × Session) (after : List Arrival)
      → Reads l r
      → r.1 ≡ over (awaiting l after)
      → History (awaiting l after) cs s
      → History l (receive_call ∷ cs) s
  faulted :
      (l : Link) (cs : List Call) (r : Result Frame × Session) (after : List Arrival)
      → Reads l r
      → r.1 ≡ desynchronized (awaiting l after)
      → History l (receive_call ∷ cs) (desynchronized (awaiting l after))
  closed : (l : Link) (cs : List Call) → History l (close_call ∷ cs) (desynchronized l)

payload_leaves :
    {h : Message} {l : Link} {r : _}
    → PayloadEnd h l r
    → (after : List Arrival) × ((r.1 ≡ over (awaiting l after))
        ⊎ (r.1 ≡ desynchronized (awaiting l after)))
payload_leaves (whole payload after e c d w) = (after, inl (ap (λ x. x.1) e))
payload_leaves (faulty message payload after e d x) = (after, inr (ap (λ x. x.1) e))
payload_leaves (broken e after r x w) = (after, inl (ap (λ x. x.1) r))

Reads-leaves :
    {l : Link} {r : _}
    → Reads l r
    → (after : List Arrival) × ((r.1 ≡ over (awaiting l after))
        ⊎ (r.1 ≡ desynchronized (awaiting l after)))
Reads-leaves (headless e after short k) = (after, inl (ap (λ x. x.1) k))
Reads-leaves (headed body long remains p) = payload_leaves p

receive-Reads : (l : Link) → Reads l (receive (over l))
receive-Reads l = elim (read_exact-cases 24 l) [
  | inr k ↦ headless k.reason k.after k.lacks (unfold receive in rw k.runs)
  | inl f ↦
      let h = decode (take 24 (deliverable l.arrivals)) in
      let e : receive (over l) ≡ receive_payload h (over (awaiting l f.after)) =
        unfold receive in rw f.runs in
      headed f.after f.enough f.remains (rw e (receive_payload-Ended h (awaiting l f.after)))
]

-- A closed session stays as it is.
call-closed : (c : Call) (s : Session) → s.closed ≡ true → call c s ≡ s
call-closed (send_call f) s e = ap (λ x. x.1) (closed_session s f.header f.payload e).0
call-closed receive_call s e = unfold receive in rw e
call-closed close_call s e = unfold close in rw e

pub run_all-closed : (cs : List Call) (s : Session) → s.closed ≡ true → run_all cs s ≡ s
run_all-closed [] s e = refl
run_all-closed (c ∷ cs) s e = ap (run_all cs) (call-closed c s e) ∙ run_all-closed cs s e

closing : (l : Link) → close (over l) ≡ desynchronized l
closing l = unfold close Transport.close in refl

-- On a link that accepts every transfer, whatever calls are made on an open session, in whatever
-- order, it goes through one of the histories of `History`: what it writes are the frames of the
-- calls of `send` before it closes whose header claims the length of the payload, each as its own
-- transfers and in order, and nothing else; it closes, with its transport, at the first call of
-- `close` or the first call of `receive` that meets a frame with a fault, and at no other call.
pub run_all-History :
    (l : Link) (calls : List Call) → l.verdicts ≡ [] → History l calls (run_all calls (over l))
run_all-History l [] v = finished l
run_all-History l (send_call f ∷ cs) v =
    elim (Bool-cases (f.header.data_length == length f.payload)) [
      | inl e ↦
          let same = (==_iff f.header.data_length (length f.payload)).0 e in
          let runs = ap (λ x. x.1) (send-transfers l f v same) in
          sent l f cs _ same (rw runs (run_all-History (sending l (transfers f)) cs v))
      | inr e ↦
          let runs : (send f.header f.payload (over l)).1 ≡ over l = unfold send in rw e in
          refused l f cs _ (ground (arith, e)) (rw runs (run_all-History l cs v))
    ]
run_all-History l (receive_call ∷ cs) v =
    let read = receive-Reads l in
    let (after, leaves) = Reads-leaves read in
    elim leaves [
      | inl o ↦
          received l cs _ (receive (over l)) after read o
            (rw o (run_all-History (awaiting l after) cs v))
      | inr d ↦
          rw (d, run_all-closed cs (desynchronized (awaiting l after)) refl)
            (faulted l cs (receive (over l)) after read d)
    ]
run_all-History l (close_call ∷ cs) v =
    rw (closing l, run_all-closed cs (desynchronized l) refl) (closed l cs)
