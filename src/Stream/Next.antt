-- ===== src/Stream/Next.antt =====
-- `receive_more` on a link that delivers given frames: it is the next event of the stream.
use adbcpp.Base.{
  ℕ, zero, suc, ◌<◌, ◌≡◌, sym, ap, ◌∙◌, List, [], ◌∷◌, ◌++◌, append_assoc, arith, Bool, true, false,
  All, ◌==◌, if◌then◌else◌, Option, none, some, Bool-cases, Option-cases, inl, inr,
}
use adbcpp.Outcome.{Result, ok, err, error, protocol}
use mathlib.Core.Path.{subst}
use mathlib.Core.Option.{some-injective}
use adbcpp.Transport.{Arrival, Link, weight}
use adbcpp.Transport.Deliver.{deliverable}
use adbcpp.Protocol.Commands.{okay, clse, wrte}
use adbcpp.Session.{Frame}
pub use adbcpp.Session.Frames.{wire}
use adbcpp.Session.Frames.{frame_bytes, IsFrame}
use adbcpp.Session.Receiving.{awaiting, Receives, receive-frame}
use adbcpp.Session.Sending.{sending}
use adbcpp.Connection.{Connection}
use adbcpp.Stream.{Stream, Channel, dispatch, receive_loop, receive_more}
use adbcpp.Stream.Steps.{
  chan, ack, holding, loop_other, loop_mine, dispatch-wrte, dispatch-okay, dispatch-clse,
  dispatch-bad,
}

-- What the device can do to a stream.
pub data Event : Type 0 where
  written : List ℕ → Event
  ended : Event
  unexpected : Event

-- The event that a frame of the stream stands for; an acknowledgement is none.
abbrev pub event : Frame → Option Event
event f =
    if f.header.command == wrte
    then some (written f.payload)
    else if f.header.command == okay
    then none
    else if f.header.command == clse
    then some ended
    else some unexpected

-- The first event of the stream `id` among the frames, and the frames behind it. Frames of other
-- streams are passed over.
abbrev pub or_next :
    Option Event → List Frame → Option (Event × List Frame) → Option (Event × List Frame)
or_next none rest later = later
or_next (some e) rest later = some (e, rest)

unfoldable pub next_event : ℕ → List Frame → Option (Event × List Frame)
next_event id [] = none
next_event id (f ∷ fs) =
    if f.header.arg1 == id then or_next (event f) fs (next_event id fs) else next_event id fs

-- What `receive_more` returns on an event, and what it leaves.
abbrev pub answer : Event → Result Bool
answer (written payload) = ok true
answer ended = ok false
answer unexpected = err (error protocol "unexpected message on the stream")

abbrev pub react : Event → Connection → Link → Stream → Channel
react (written payload) c l s = chan c (sending l (ack s ∷ [])) (holding s payload)
react ended c l s = chan c l (record s { closed = true })
react unexpected c l s = chan c l s

-- The end of a run of `receive_loop` with the event `e`, before the frames `fs` and then `rest`.
pub record Ends (e : Event) (c : Connection) (l : Link) (s : Stream) (bytes : List ℕ)
    (r : Result Bool × Channel) : Type 0 where
  pub after : List Arrival
  pub runs : r ≡ (answer e, react e c (awaiting l after) s)
  pub remains : deliverable after ≡ bytes
  pub lighter : weight after < weight l.arrivals

module _ (c : Connection) (l : Link) (s : Stream) (again : Channel → Result Bool × Channel)
    (f : Frame) where
  dispatch-event :
      (e : Event)
      → l.verdicts ≡ []
      → event f ≡ some e
      → dispatch again f (chan c l s) ≡ (answer e, react e c l s)
  dispatch-event e v h = elim (Bool-cases (f.header.command == wrte)) [
    | inl w ↦ dispatch-wrte c l s again f w v ∙ ends (rw w at h)
    | inr w ↦ elim (Bool-cases (f.header.command == okay)) [
      | inl k ↦ absurd (cc (rw (w, k) at h))
      | inr k ↦ elim (Bool-cases (f.header.command == clse)) [
        | inl t ↦ dispatch-clse c l s again f w k t ∙ ends (rw (w, k, t) at h)
        | inr t ↦ dispatch-bad c l s again f w k t ∙ ends (rw (w, k, t) at h)
      ]
    ]
  ]
    where
      end_with : Event → Result Bool × Channel
      end_with x = (answer x, react x c l s)

      ends : {x : Event} → some x ≡ some e → end_with x ≡ end_with e
      ends p = ap end_with (some-injective _ _ p)

  dispatch-quiet : event f ≡ none → dispatch again f (chan c l s) ≡ again (chan c l s)
  dispatch-quiet h = elim (Bool-cases (f.header.command == wrte)) [
    | inl w ↦ absurd (cc (rw w at h))
    | inr w ↦ elim (Bool-cases (f.header.command == okay)) [
      | inl k ↦ dispatch-okay c l s again f w k
      | inr k ↦ elim (Bool-cases (f.header.command == clse)) [
        | inl t ↦ absurd (cc (rw (w, k, t) at h))
        | inr t ↦ absurd (cc (rw (w, k, t) at h))
      ]
    ]
  ]

pub next-other :
    (id : ℕ) (f : Frame) (fs : List Frame)
    → (f.header.arg1 == id) ≡ false
    → next_event id (f ∷ fs) ≡ next_event id fs
unfolding next_event
next-other id f fs m = rw m

pub next-mine :
    (id : ℕ) (f : Frame) (fs : List Frame)
    → (f.header.arg1 == id) ≡ true
    → next_event id (f ∷ fs) ≡ or_next (event f) fs (next_event id fs)
unfolding next_event
next-mine id f fs m = rw m

-- A run that begins behind one more frame.
Ends-later :
    {e : Event} {c : Connection} {l : Link} {s : Stream} {bytes next : List ℕ} {f : Frame}
    {r q : Result Bool × Channel} (k : Receives l f next)
    → q ≡ r
    → Ends e c (awaiting l k.after) s bytes r
    → Ends e c l s bytes q
Ends-later k p h = record {
  after = h.after;
  runs = p ∙ h.runs;
  remains = h.remains;
  lighter = omega (arith, h.lighter, k.lighter);
}

module _ (c : Connection) (s : Stream) (rest : List ℕ) where
  loop_next :
      (fuel : ℕ) (fs : List Frame) (l : Link) (e : Event) (gs : List Frame)
      → l.verdicts ≡ []
      → All IsFrame fs
      → deliverable l.arrivals ≡ wire fs ++ rest
      → weight l.arrivals < fuel
      → next_event s.local_id fs ≡ some (e, gs)
      → Ends e c l s (wire gs ++ rest) (receive_loop fuel (chan c l s))
  loop_next zero fs l e gs v h d w n = absurd (omega arith)
  loop_next (suc fuel) [] l e gs v h d w n = unfold next_event in cc
  loop_next (suc fuel) (f ∷ fs) l e gs v (hf, h) d w n =
      let k =
        receive-frame l f (wire fs ++ rest) hf (d ∙ append_assoc (frame_bytes f) (wire fs) rest) in
      let go : next_event s.local_id fs ≡ some (e, gs)
          → Ends e c (awaiting l k.after) s (wire gs ++ rest)
              (receive_loop fuel (chan c (awaiting l k.after) s)) =
        loop_next fuel fs (awaiting l k.after) e gs v h k.remains (omega (arith, k.lighter)) in
      elim (Bool-cases (f.header.arg1 == s.local_id)) [
        | inr m ↦
            Ends-later k (loop_other c l s fuel k m) (go (sym (next-other s.local_id f fs m) ∙ n))
        | inl m ↦ elim (Option-cases (event f)) [
          | inl q ↦
              Ends-later k
                (loop_mine c l s fuel k m
                  ∙ dispatch-quiet c (awaiting l k.after) s (receive_loop fuel) f q)
                (go (rw q at (sym (next-mine s.local_id f fs m) ∙ n)))
          | inr (x, q) ↦
              subst (λ y. Ends y.0 c l s (wire y.1 ++ rest) (receive_loop (suc fuel) (chan c l s)))
                (some-injective (x, fs) (e, gs) (rw q at (sym (next-mine s.local_id f fs m) ∙ n)))
                (record {
                  after = k.after;
                  runs =
                      loop_mine c l s fuel k m
                      ∙ dispatch-event c (awaiting l k.after) s (receive_loop fuel) f x v q;
                  remains = k.remains;
                  lighter = k.lighter;
                })
        ]
      ]

-- On a link that accepts every transfer and delivers frames, `receive_more` ends with the first
-- event of its stream among them. It acknowledges a WRTE and nothing else.
pub receive_more-next :
    (c : Connection) (s : Stream) (rest : List ℕ) (fs : List Frame) (l : Link) (e : Event)
    (gs : List Frame)
    → l.verdicts ≡ []
    → All IsFrame fs
    → deliverable l.arrivals ≡ wire fs ++ rest
    → next_event s.local_id fs ≡ some (e, gs)
    → Ends e c l s (wire gs ++ rest) (receive_more (chan c l s))
unfolding receive_more
receive_more-next c s rest fs l e gs v h d n =
    loop_next c s rest (suc (weight l.arrivals)) fs l e gs v h d (omega arith) n

-- The frames behind an event are frames.
pub next_event-All :
    (id : ℕ) (fs : List Frame) (e : Event) (gs : List Frame)
    → All IsFrame fs
    → next_event id fs ≡ some (e, gs)
    → All IsFrame gs
next_event-All id [] e gs h n = unfold next_event in cc
next_event-All id (f ∷ fs) e gs (hf, h) n = elim (Bool-cases (f.header.arg1 == id)) [
  | inr m ↦ next_event-All id fs e gs h (sym (next-other id f fs m) ∙ n)
  | inl m ↦ elim (Option-cases (event f)) [
    | inl q ↦ next_event-All id fs e gs h (rw q at (sym (next-mine id f fs m) ∙ n))
    | inr (x, q) ↦
        subst (λ y. All IsFrame y.1)
          (some-injective (x, fs) (e, gs) (rw q at (sym (next-mine id f fs m) ∙ n))) h
  ]
]
