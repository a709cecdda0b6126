-- ===== src/Stream/Opening.antt =====
-- `open_stream` on a link that delivers given frames.
use adbcpp.Base.{
  ℕ, zero, suc, ◌+◌, ◌<◌, ◌≡◌, refl, sym, ◌∙◌, List, [], ◌∷◌, ◌++◌, append_assoc, arith, true,
  false, ◌%◌, IsU32, length, length-append, All, ◌==◌, if◌then◌else◌, Option, none, some,
  Bool-cases, inl, inr,
}
use mathlib.Core.Path.{subst}
use mathlib.Core.Option.{some-injective}
use adbcpp.Outcome.{Result, ok, err, error, protocol}
use adbcpp.Transport.{Arrival, Link, weight}
use adbcpp.Transport.Deliver.{deliverable}
use adbcpp.Protocol.Commands.{open_command, okay, clse, initial_delayed_ack_bytes}
use adbcpp.Protocol.Message.{encode}
use adbcpp.Session.{Frame}
use adbcpp.Session.Frames.{frame_bytes, IsFrame}
use adbcpp.Session.Receiving.{awaiting, receive-frame}
use adbcpp.Session.Sending.{sending, transfers}
use adbcpp.Connection.{Connection, allocate_local_id}
use adbcpp.Stream.{
  Stream, Channel, await_okay, request_open, open_stream, unopened, opened, close_now,
  make_empty_message,
}
use adbcpp.Stream.Steps.{
  linked, chan, send-linked, message_frame, make_message-frame, await_other, await_accept,
  await_refuse,
}
use adbcpp.Stream.Next.{wire}

-- The first frame for the stream `id`, and the frames behind it.
unfoldable pub first_reply : ℕ → List Frame → Option (Frame × List Frame)
first_reply id [] = none
first_reply id (f ∷ fs) = if f.header.arg1 == id then some (f, fs) else first_reply id fs

-- What the wait for an answer ends with on the frame `f`.
abbrev pub replied : Frame → Connection → Link → Stream → Result (Unit {0}) × Channel
replied f c l s =
    if f.header.command == okay
    then (ok tt, chan c l (record s { remote_id = f.header.arg0 }))
    else (err (error protocol "failed to open the stream"), chan c l s)

abbrev Awaits : Connection → Link → Stream → Frame → List ℕ → Result (Unit {0}) × Channel → Type 0
Awaits c l s f bytes r =
    (after : List Arrival) × ((r ≡ replied f c (awaiting l after) s) × (deliverable after ≡ bytes))

pub reply-other :
    (id : ℕ) (f : Frame) (fs : List Frame)
    → (f.header.arg1 == id) ≡ false
    → first_reply id (f ∷ fs) ≡ first_reply id fs
unfolding first_reply
reply-other id f fs m = rw m

pub reply-mine :
    (id : ℕ) (f : Frame) (fs : List Frame)
    → (f.header.arg1 == id) ≡ true
    → first_reply id (f ∷ fs) ≡ some (f, fs)
unfolding first_reply
reply-mine id f fs m = rw m

module _ (c : Connection) (s : Stream) (rest : List ℕ) where
  await_reply :
      (fuel : ℕ) (fs : List Frame) (l : Link) (g : Frame) (gs : List Frame)
      → All IsFrame fs
      → deliverable l.arrivals ≡ wire fs ++ rest
      → weight l.arrivals < fuel
      → first_reply s.local_id fs ≡ some (g, gs)
      → Awaits c l s g (wire gs ++ rest) (await_okay fuel (chan c l s))
  await_reply zero fs l g gs h d w n = absurd (omega arith)
  await_reply (suc fuel) [] l g gs h d w n = unfold first_reply in cc
  await_reply (suc fuel) (f ∷ fs) l g gs (hf, h) d w n =
      let k =
        receive-frame l f (wire fs ++ rest) hf (d ∙ append_assoc (frame_bytes f) (wire fs) rest) in
      let go : first_reply s.local_id fs ≡ some (g, gs)
          → Awaits c (awaiting l k.after) s g (wire gs ++ rest)
              (await_okay fuel (chan c (awaiting l k.after) s)) =
        await_reply fuel fs (awaiting l k.after) g gs h k.remains (omega (arith, k.lighter)) in
      elim (Bool-cases (f.header.arg1 == s.local_id)) [
        | inr m ↦
            let (after, (runs, remains)) = go (sym (reply-other s.local_id f fs m) ∙ n) in
            (after, (await_other c l s fuel k m ∙ runs, remains))
        | inl m ↦
            subst (λ y. Awaits c l s y.0 (wire y.1 ++ rest) (await_okay (suc fuel) (chan c l s)))
              (some-injective (f, fs) (g, gs) (sym (reply-mine s.local_id f fs m) ∙ n))
              (
                k.after,
                (
                  elim (Bool-cases (f.header.command == okay)) [
                    | inl t ↦ await_accept c l s fuel k m t ∙ rw t
                    | inr t ↦ await_refuse c l s fuel k m t ∙ rw t
                  ],
                  k.remains,
                ),
              )
      ]

-- The OPEN of a stream.
abbrev pub open_frame : Connection → List ℕ → Frame
open_frame c service =
    message_frame open_command c.next_local_id
      (if c.delayed_ack then initial_delayed_ack_bytes else 0) (service ++ 0 ∷ [])

-- The connection with its next identifier.
abbrev pub numbered : Connection → Connection
numbered c = record c { next_local_id = (c.next_local_id + 1) % 4294967296 }

-- The stream and the connection once the device has answered with `f`. A stream that the device did
-- not accept is closed by its destructor, which sends a CLSE of its own.
abbrev pub established : Connection → List ℕ → Frame → Link → Result Stream × Connection
established c service f l =
    if f.header.command == okay
    then (
      ok (record (unopened service c.next_local_id) { remote_id = f.header.arg0 }),
      linked (numbered c) l,
    )
    else (
      err (error protocol "failed to open the stream"),
      linked (numbered c) (sending l (encode (make_empty_message clse c.next_local_id 0) ∷ [])),
    )

-- A run of `open_stream` that ended with the answer `f`, before `bytes`.
pub record Opens (c : Connection) (service : List ℕ) (l : Link) (f : Frame) (bytes : List ℕ)
    (r : Result Stream × Connection) : Type 0 where
  pub after : List Arrival
  pub runs :
      r ≡ established c service f (awaiting (sending l (transfers (open_frame c service))) after)
  pub remains : deliverable after ≡ bytes

request_open-linked :
    (c : Connection) (l : Link) (service : List ℕ)
    → l.verdicts ≡ []
    → IsU32 (length service + 1)
    → request_open (chan (numbered c) l (unopened service c.next_local_id)) ≡ (
      ok tt,
      chan
          (numbered c)
          (sending l (transfers (open_frame c service)))
          (unopened service c.next_local_id),
    )
unfolding request_open
request_open-linked c l service v u = rw (
  make_message-frame open_command c.next_local_id
      (if c.delayed_ack then initial_delayed_ack_bytes else 0) (service ++ 0 ∷ [])
      (omega (arith, length-append service (0 ∷ []))),
  send-linked (numbered c) l (open_frame c service).header (service ++ 0 ∷ []) v refl,
)

destroyed :
    (c : Connection) (l : Link) (service : List ℕ)
    → l.verdicts ≡ []
    → (close_now (chan (numbered c) l (unopened service c.next_local_id))).connection
      ≡ linked (numbered c) (sending l (encode (make_empty_message clse c.next_local_id 0) ∷ []))
unfolding close_now make_empty_message
destroyed c l service v =
    rw (send-linked (numbered c) l (make_empty_message clse c.next_local_id 0) [] v refl)

opened-replied :
    (c : Connection) (l : Link) (service : List ℕ) (f : Frame)
    → l.verdicts ≡ []
    → opened (replied f (numbered c) l (unopened service c.next_local_id))
      ≡ established c service f l
opened-replied c l service f v = elim (Bool-cases (f.header.command == okay)) [
  | inl t ↦ rw t
  | inr t ↦ rw (t, destroyed c l service v)
]

-- On a link that accepts every transfer and delivers frames, `open_stream` sends one OPEN and ends
-- with the first of the frames that is for the new stream, whatever comes before it. On an OKAY the
-- stream has the identifier of the device, on any other command the call fails, and the destructor
-- sends a CLSE, also where the frame was one.
pub open_stream-Opens :
    (c : Connection) (l : Link) (service rest : List ℕ) (fs : List Frame) (f : Frame)
    (gs : List Frame)
    → l.verdicts ≡ []
    → IsU32 (length service + 1)
    → All IsFrame fs
    → deliverable l.arrivals ≡ wire fs ++ rest
    → first_reply c.next_local_id fs ≡ some (f, gs)
    → Opens c service l f (wire gs ++ rest) (open_stream service (linked c l))
unfolding open_stream allocate_local_id
open_stream-Opens c l service rest fs f gs v u h d n =
    let s = unopened service c.next_local_id in
    let sent = sending l (transfers (open_frame c service)) in
    let (after, (runs, remains)) =
      await_reply (numbered c) s rest (suc (weight l.arrivals)) fs sent f gs h d (omega arith) n in
    record {
      after = after;
      runs =
          rw (request_open-linked c l service v u, runs)
            (opened-replied c (awaiting sent after) service f v);
      remains = remains;
    }
