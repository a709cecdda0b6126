-- ===== src/Stream/Supply.antt =====
-- What a stream of src/stream.cpp has to read: the bytes that are buffered and those that the device
-- writes to it.
pub mod Filling
pub mod Refill
use adbcpp.Base.{
  ℕ, zero, suc, ◌+◌, ◌-◌, ◌≤◌, ◌<◌, ◌≡◌, refl, sym, ap, ◌∙◌, List, [], ◌∷◌, ◌++◌, append_assoc,
  append-nil, arith, length, take, drop, min, length-append, length-take, length-drop,
  take-append-drop, take-append_le, drop-append_le, drop_add, take_add, true, false, ◌==◌, All,
  Option-cases, Bool-cases, inl, inr, none, some, leb, ◌≢◌, drop-all, take-append, drop-append,
  leb→le, leb→not_le,
}
use mathlib.Core.Path.{subst}
use adbcpp.Outcome.{Result, ok}
use adbcpp.Outcome.Exec.{pure, ◌>>=◌}
use adbcpp.Transport.{Link, weight}
use adbcpp.Transport.Deliver.{deliverable, length-deliverable-le-weight}
use adbcpp.Session.{Frame}
use adbcpp.Session.Frames.{frame_bytes, IsFrame}
use adbcpp.Session.Receiving.{awaiting}
use adbcpp.Session.Sending.{sending, flatten}
use adbcpp.Connection.{Connection}
use adbcpp.Stream
use adbcpp.Stream.{Stream, Channel, buffered, refill, take_buffered, fill, receive_more}
use adbcpp.Stream.Steps.{chan, ack, holding}
use adbcpp.Protocol.Commands.{wrte, okay, clse}
use adbcpp.Protocol.Message.{encode}
use adbcpp.Stream.Next.{
  Event, event, written, ended, unexpected, next_event, wire, Ends, receive_more-next,
  next_event-All,
}
use adbcpp.Stream.Payloads.{payloads, on_payload, payloads-next, payloads-none}

-- The stream with other bytes buffered.
abbrev pub filled : Stream → List ℕ → ℕ → Stream
filled s incoming offset = record s { incoming = incoming; incoming_offset = offset }

-- A channel of the stream `s` on the connection `c` whose link accepts every transfer, on which
-- `tape` is what is buffered and what the device writes next, at most `limit` arrivals and bytes away.
pub record Supplies (c : Connection) (s : Stream) (limit : ℕ) (tape : List ℕ) (d : Channel)
    : Type 0 where
  pub link : Link
  pub incoming : List ℕ
  pub offset : ℕ
  pub frames : List Frame
  pub rest : List ℕ
  pub is : d ≡ chan c link (filled s incoming offset)
  pub accepts : link.verdicts ≡ []
  pub well : All IsFrame frames
  pub delivers : deliverable link.arrivals ≡ wire frames ++ rest
  pub holds : drop offset incoming ++ flatten (payloads s.local_id frames) ≡ tape
  pub within : weight link.arrivals ≤ limit

-- An operation that took `n` bytes of the tape.
pub record Takes (c : Connection) (s : Stream) (limit n : ℕ) (tape : List ℕ)
    (r : Result (List ℕ) × Channel) : Type 0 where
  pub after : Channel
  pub runs : r ≡ (ok (take n tape), after)
  pub left : Supplies c s limit (drop n tape) after

-- Another limit that holds.
pub bounded :
    {c : Connection} {s : Stream} {limit : ℕ} {tape : List ℕ} {d : Channel} (bound : ℕ)
    (u : Supplies c s limit tape d)
    → weight u.link.arrivals ≤ bound
    → Supplies c s bound tape d
bounded bound u h = record {
  link = u.link;
  incoming = u.incoming;
  offset = u.offset;
  frames = u.frames;
  rest = u.rest;
  is = u.is;
  accepts = u.accepts;
  well = u.well;
  delivers = u.delivers;
  holds = u.holds;
  within = h;
}

pub Takes-weaken :
    {c : Connection} {s : Stream} {small limit n : ℕ} {tape : List ℕ}
    {r : Result (List ℕ) × Channel}
    → small ≤ limit
    → Takes c s small n tape r
    → Takes c s limit n tape r
Takes-weaken {limit} h t = record {
  after = t.after;
  runs = t.runs;
  left = bounded limit t.left (omega (arith, t.left.within));
}

pub Takes-runs :
    {c : Connection} {s : Stream} {limit n : ℕ} {tape : List ℕ} {q r : Result (List ℕ) × Channel}
    → q ≡ r
    → Takes c s limit n tape r
    → Takes c s limit n tape q
Takes-runs e t = record { after = t.after; runs = e ∙ t.runs; left = t.left }

length-on_payload :
    (f : Frame) (ps : List (List ℕ))
    → length (flatten (on_payload (event f) ps)) ≤ length f.payload + length (flatten ps)
length-on_payload f ps = elim (Bool-cases (f.header.command == wrte)) [
  | inl w ↦ rw w (omega (arith, length-append f.payload (flatten ps)))
  | inr w ↦ elim (Bool-cases (f.header.command == okay)) [
    | inl k ↦ rw (w, k) (omega arith)
    | inr k ↦ elim (Bool-cases (f.header.command == clse)) [
      | inl t ↦ rw (w, k, t) (omega arith)
      | inr t ↦ rw (w, k, t) (omega arith)
    ]
  ]
]

length-flatten-payloads :
    (id : ℕ) (fs : List Frame) → length (flatten (payloads id fs)) ≤ length (wire fs)
unfolding payloads
length-flatten-payloads id [] = omega arith
length-flatten-payloads id (f ∷ fs) =
    let more = length-flatten-payloads id fs in
    let whole = length-append (frame_bytes f) (wire fs) in
    let inner = length-append (encode f.header) f.payload in
    elim (Bool-cases (f.header.arg1 == id)) [
      | inr m ↦ rw m (omega (arith, more, whole))
      | inl m ↦ rw m (omega (arith, more, whole, inner, length-on_payload f (payloads id fs)))
    ]

-- The tape is no longer than what is buffered and what the link can deliver.
pub length-tape :
    {c : Connection} {s : Stream} {limit : ℕ} {tape : List ℕ} {d : Channel}
    → Supplies c s limit tape d
    → length tape ≤ length (buffered d.stream) + weight d.connection.session.link.arrivals
length-tape {s} {tape} {d} u =
    let b : length (buffered d.stream) ≡ length (drop u.offset u.incoming) =
      ap (λ (x : Channel). length (buffered x.stream)) u.is in
    let w : weight d.connection.session.link.arrivals ≡ weight u.link.arrivals =
      ap (λ (x : Channel). weight x.connection.session.link.arrivals) u.is in
    omega (
      arith,
      b,
      w,
      ap length u.holds,
      ap length u.delivers,
      length-append (drop u.offset u.incoming) (flatten (payloads s.local_id u.frames)),
      length-append (wire u.frames) u.rest,
      length-flatten-payloads s.local_id u.frames,
      length-deliverable-le-weight u.link.arrivals,
    )
