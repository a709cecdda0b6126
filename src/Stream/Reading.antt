-- ===== src/Stream/Reading.antt =====
-- `Stream::read_all` is the concatenation of what the device writes until it closes the stream.
use adbcpp.Base.{
  ℕ, zero, suc, ◌<◌, ◌≡◌, refl, sym, ap, ◌∙◌, List, [], ◌∷◌, ◌++◌, append_assoc, append-nil, arith,
  true, All, ◌==◌, if◌then◌else◌, Option, none, some, Bool-cases, Option-cases, inl, inr, length,
  replicate,
}
use mathlib.Core.Path.{subst}
use mathlib.Core.Option.{some-injective}
use adbcpp.Outcome.{Result, ok}
use adbcpp.Transport.{Arrival, Link, weight}
use adbcpp.Transport.Deliver.{deliverable}
use adbcpp.Session.{Frame}
use adbcpp.Session.Frames.{IsFrame}
use adbcpp.Session.Receiving.{awaiting}
use adbcpp.Session.Sending.{sending, flatten}
use adbcpp.Connection.{Connection}
use adbcpp.Stream.{Stream, Channel, receive_more, gather, read_all, buffered}
use adbcpp.Stream.Steps.{chan, ack}
use adbcpp.Stream.Next.{
  Event, written, ended, unexpected, event, next_event, next-other, next-mine, wire, Ends,
  receive_more-next, next_event-All,
}

-- The payloads that the device writes to the stream `id` until it closes it, and the frames behind
-- the close; `none` if it does not close it, or sends something that a stream cannot have.
abbrev pub add_payload :
    List ℕ → Option (List (List ℕ) × List Frame) → Option (List (List ℕ) × List Frame)
add_payload p none = none
add_payload p (some (ps, gs)) = some (p ∷ ps, gs)

abbrev pub on_event :
    Option Event
    → List Frame
    → Option (List (List ℕ) × List Frame)
    → Option (List (List ℕ) × List Frame)
on_event none fs later = later
on_event (some (written p)) fs later = add_payload p later
on_event (some ended) fs later = some ([], fs)
on_event (some unexpected) fs later = none

unfoldable pub collect : ℕ → List Frame → Option (List (List ℕ) × List Frame)
collect id [] = none
collect id (f ∷ fs) =
    if f.header.arg1 == id then on_event (event f) fs (collect id fs) else collect id fs

collect-next :
    (id : ℕ) (fs : List Frame) (e : Event) (gs : List Frame)
    → next_event id fs ≡ some (e, gs)
    → collect id fs ≡ on_event (some e) gs (collect id gs)
unfolding collect
collect-next id [] e gs n = unfold next_event in cc
collect-next id (f ∷ fs) e gs n = elim (Bool-cases (f.header.arg1 == id)) [
  | inr m ↦ rw m (collect-next id fs e gs (sym (next-other id f fs m) ∙ n))
  | inl m ↦ elim (Option-cases (event f)) [
    | inl q ↦ rw (m, q) (collect-next id fs e gs (rw q at (sym (next-mine id f fs m) ∙ n)))
    | inr (x, q) ↦
        rw (m, q)
          (ap (λ y. on_event (some y.0) y.1 (collect id y.1))
            (some-injective (x, fs) (e, gs) (rw q at (sym (next-mine id f fs m) ∙ n))))
  ]
]

collect-none : (id : ℕ) (fs : List Frame) → next_event id fs ≡ none → collect id fs ≡ none
unfolding collect
collect-none id [] n = refl
collect-none id (f ∷ fs) n = elim (Bool-cases (f.header.arg1 == id)) [
  | inr m ↦ rw m (collect-none id fs (sym (next-other id f fs m) ∙ n))
  | inl m ↦ elim (Option-cases (event f)) [
    | inl q ↦ rw (m, q) (collect-none id fs (rw q at (sym (next-mine id f fs m) ∙ n)))
    | inr (x, q) ↦ absurd (cc (rw q at (sym (next-mine id f fs m) ∙ n)))
  ]
]

-- The stream with nothing buffered.
abbrev pub emptied : Stream → Stream
emptied s = record s { incoming = []; incoming_offset = 0 }

-- `read_all` ends: it returns `output` and the payloads, has acknowledged each of them, and knows
-- the stream to be closed. The link goes on with `bytes`.
pub record Gathers (c : Connection) (l : Link) (s : Stream) (output : List ℕ) (ps : List (List ℕ))
    (bytes : List ℕ) (r : Result (List ℕ) × Channel) : Type 0 where
  pub after : List Arrival
  pub runs : r ≡ (
    ok (output ++ flatten ps),
    chan c
        (sending (awaiting l after) (replicate (length ps) (ack s)))
        (record (emptied s) { closed = true }),
  )
  pub remains : deliverable after ≡ bytes

module _ (c : Connection) (s : Stream) (fuel : ℕ) (output : List ℕ) (l : Link) where
  gather_written :
      (p : List ℕ) (ps : List (List ℕ)) (hs bytes : List ℕ)
      (k : Ends (written p) c l (emptied s) hs (receive_more (chan c l (emptied s))))
      → Gathers c (sending (awaiting l k.after) (ack s ∷ [])) s (output ++ p) ps bytes (
          gather fuel
            (output ++ p)
            (chan c (sending (awaiting l k.after) (ack s ∷ [])) (emptied s)))
      → Gathers c l s output (p ∷ ps) bytes (gather (suc fuel) output (chan c l (emptied s)))
  unfolding gather
  gather_written p ps hs bytes k g = record {
    after = g.after;
    runs = rw k.runs (
        g.runs
        ∙ rw (
          append_assoc output p (flatten ps),
          append_assoc l.written (ack s ∷ []) (replicate (length ps) (ack s)),
        ));
    remains = g.remains;
  }

  gather_ended :
      (hs : List ℕ) (k : Ends ended c l (emptied s) hs (receive_more (chan c l (emptied s))))
      → Gathers c l s output [] hs (gather (suc fuel) output (chan c l (emptied s)))
  unfolding gather
  gather_ended hs k = record {
    after = k.after;
    runs = rw k.runs (rw (append-nil output, append-nil l.written));
    remains = k.remains;
  }

add_payload-some :
    (p : List ℕ) (o : Option (List (List ℕ) × List Frame)) (ps : List (List ℕ)) (gs : List Frame)
    → add_payload p o ≡ some (ps, gs)
    → (qs : List (List ℕ)) × (o ≡ some (qs, gs)) × (ps ≡ p ∷ qs)
add_payload-some p none ps gs h = absurd (cc h)
add_payload-some p (some (qs, hs)) ps gs h =
    let e = some-injective (p ∷ qs, hs) (ps, gs) h in
    (
      qs,
      ap (λ y. some (qs, y)) (ap (λ (y : List (List ℕ) × List Frame). y.1) e),
      sym (ap (λ (y : List (List ℕ) × List Frame). y.0) e),
    )

module _ (c : Connection) (s : Stream) (rest : List ℕ) where
  gather-collect :
      (fuel : ℕ) (output : List ℕ) (fs : List Frame) (l : Link) (ps : List (List ℕ))
      (gs : List Frame)
      → l.verdicts ≡ []
      → All IsFrame fs
      → deliverable l.arrivals ≡ wire fs ++ rest
      → weight l.arrivals < fuel
      → collect s.local_id fs ≡ some (ps, gs)
      → Gathers c l s output ps (wire gs ++ rest) (gather fuel output (chan c l (emptied s)))
  gather-collect zero output fs l ps gs v h d w e = absurd (omega arith)
  gather-collect (suc fuel) output fs l ps gs v h d w e =
      elim (Option-cases (next_event s.local_id fs)) [
        | inl n ↦ absurd (cc (sym (collect-none s.local_id fs n) ∙ e))
        | inr ((written p, hs), n) ↦
            let (qs, q, eq) =
              add_payload-some p (collect s.local_id hs) ps gs
                (sym (collect-next s.local_id fs (written p) hs n) ∙ e) in
            let k = receive_more-next c (emptied s) rest fs l (written p) hs v h d n in
            rw eq (
              gather_written c s fuel output l p qs (wire hs ++ rest) (wire gs ++ rest) k (
                gather-collect fuel (output ++ p) hs (sending (awaiting l k.after) (ack s ∷ [])) qs
                  gs v (next_event-All s.local_id fs (written p) hs h n) k.remains
                  (omega (arith, k.lighter)) q))
        | inr ((ended, hs), n) ↦
            let k = receive_more-next c (emptied s) rest fs l ended hs v h d n in
            subst
              (λ y.
                Gathers c l s output y.0 (wire y.1 ++ rest)
                  (gather (suc fuel) output (chan c l (emptied s))))
              (some-injective ([], hs) (ps, gs) (sym (collect-next s.local_id fs ended hs n) ∙ e))
              (gather_ended c s fuel output l (wire hs ++ rest) k)
        | inr ((unexpected, hs), n) ↦
            absurd (cc (sym (collect-next s.local_id fs unexpected hs n) ∙ e))
      ]

-- On a link that accepts every transfer and delivers frames among which the device closes the
-- stream, `read_all` returns what was buffered followed by the payloads that the device wrote to
-- this stream, in order and without those of other streams. It has sent one OKAY for each of them
-- and nothing else, knows the stream to be closed, and leaves the frames behind the close.
pub read_all-collect :
    (c : Connection) (s : Stream) (rest : List ℕ) (fs : List Frame) (l : Link) (ps : List (List ℕ))
    (gs : List Frame)
    → l.verdicts ≡ []
    → All IsFrame fs
    → deliverable l.arrivals ≡ wire fs ++ rest
    → collect s.local_id fs ≡ some (ps, gs)
    → Gathers c l s (buffered s) ps (wire gs ++ rest) (read_all (chan c l s))
unfolding read_all
read_all-collect c s rest fs l ps gs v h d e =
    gather-collect c s rest (suc (weight l.arrivals)) (buffered s) fs l ps gs v h d (omega arith) e
