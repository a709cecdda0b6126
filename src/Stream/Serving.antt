-- ===== src/Stream/Serving.antt =====
-- A service of the device that accepts a stream: what the stream then has to read.
use adbcpp.Base.{
  ℕ, ◌+◌, ◌≡◌, refl, sym, ◌∙◌, List, [], ◌∷◌, ◌++◌, arith, true, ◌==◌, ==_iff, All, IsU32, length,
  some, Bool-cases, inl, inr,
}
use mathlib.Core.Path.{subst}
use mathlib.Core.Option.{some-injective}
use adbcpp.Outcome.{Result, ok}
use adbcpp.Transport.{Link, weight}
use adbcpp.Transport.Deliver.{deliverable}
use adbcpp.Protocol.Commands.{okay}
use adbcpp.Session.{Frame}
use adbcpp.Session.Frames.{IsFrame}
use adbcpp.Session.Receiving.{awaiting}
use adbcpp.Session.Sending.{sending, transfers, flatten}
use adbcpp.Connection.{Connection}
use adbcpp.Stream.{Stream, Channel, open_stream, unopened, in_scope, with_stream, close_now}
use adbcpp.Stream.Steps.{linked}
use adbcpp.Stream.Next.{wire}
use adbcpp.Stream.Payloads.{payloads}
use adbcpp.Stream.Supply.{Supplies}
use adbcpp.Stream.Opening.{
  first_reply, reply-other, reply-mine, numbered, open_frame, established, open_stream-Opens,
}

-- The frames behind the answer are frames.
first_reply-All :
    (id : ℕ) (fs : List Frame) (g : Frame) (gs : List Frame)
    → All IsFrame fs
    → first_reply id fs ≡ some (g, gs)
    → All IsFrame gs
first_reply-All id [] g gs h n = unfold first_reply in cc
first_reply-All id (f ∷ fs) g gs (hf, h) n = elim (Bool-cases (f.header.arg1 == id)) [
  | inr m ↦ first_reply-All id fs g gs h (sym (reply-other id f fs m) ∙ n)
  | inl m ↦
      subst (λ y. All IsFrame y.1) (some-injective (f, fs) (g, gs) (sym (reply-mine id f fs m) ∙ n))
        h
]

-- A link that accepts every transfer and delivers frames, the first of which for the next stream is
-- an OKAY; behind it the device writes `tape` to that stream, in any number of WRTEs.
pub record Serves (c : Connection) (l : Link) (service tape : List ℕ) : Type 0 where
  pub frames : List Frame
  pub rest : List ℕ
  pub answer : Frame
  pub behind : List Frame
  pub accepts : l.verdicts ≡ []
  pub nameable : IsU32 (length service + 1)
  pub well : All IsFrame frames
  pub delivers : deliverable l.arrivals ≡ wire frames ++ rest
  pub answers : first_reply c.next_local_id frames ≡ some (answer, behind)
  pub agrees : answer.header.command ≡ okay
  pub writes : flatten (payloads c.next_local_id behind) ≡ tape

-- The stream that opens.
abbrev pub accepted : Connection → List ℕ → Frame → Stream
accepted c service answer = record (unopened service c.next_local_id) {
  remote_id = answer.header.arg0;
}

established-okay :
    (c : Connection) (service : List ℕ) (f : Frame) (l : Link)
    → (f.header.command == okay) ≡ true
    → established c service f l ≡ (ok (accepted c service f), linked (numbered c) l)
established-okay c service f l h = rw h

pub record IsOpened (c : Connection) (service tape : List ℕ) (r : Result Stream × Connection)
    : Type 0 where
  pub stream : Stream
  pub connection : Connection
  pub limit : ℕ
  pub runs : r ≡ (ok stream, connection)
  pub supplies :
      Supplies (numbered c) stream limit tape (record { connection = connection; stream = stream })

pub open_stream-IsOpened :
    (c : Connection) (l : Link) (service tape : List ℕ)
    → Serves c l service tape
    → IsOpened c service tape (open_stream service (linked c l))
open_stream-IsOpened c l service tape v =
    let o =
      open_stream-Opens c l service v.rest v.frames v.answer v.behind v.accepts v.nameable v.well
        v.delivers v.answers in
    let link = awaiting (sending l (transfers (open_frame c service))) o.after in
    record {
      stream = accepted c service v.answer;
      connection = linked (numbered c) link;
      limit = weight o.after;
      runs =
          o.runs
          ∙ established-okay c service v.answer link
              ((==_iff v.answer.header.command okay).1 v.agrees);
      supplies = record {
        link = link;
        incoming = [];
        offset = 0;
        frames = v.behind;
        rest = v.rest;
        is = refl;
        accepts = v.accepts;
        well = first_reply-All c.next_local_id v.frames v.answer v.behind v.well v.answers;
        delivers = o.remains;
        holds = v.writes;
        within = omega arith;
      };
    }

in_scope-runs :
    {A : Type 0} (body : Channel → Result A × Channel) (result : Result A) (s : Stream)
    (connection : Connection) (after : Channel) (r : Result Stream × Connection)
    → r ≡ (ok s, connection)
    → body (record { connection = connection; stream = s }) ≡ (result, after)
    → in_scope body r ≡ (result, (close_now after).connection)
in_scope-runs body result s connection after r h g = rw (h, g)

-- An operation on a stream, in the scope of a stream that the device serves, with its result,
pub with_stream-result :
    {A : Type 0} (c : Connection) (l : Link) (service tape : List ℕ)
    (body : Channel → Result A × Channel) (result : Result A)
    → Serves c l service tape
    → ((s : Stream) (limit : ℕ) (d : Channel)
        → Supplies (numbered c) s limit tape d
        → (after : Channel) × (body d ≡ (result, after)))
    → (after : Connection) × (with_stream service body (linked c l) ≡ (result, after))
unfolding with_stream
with_stream-result c l service tape body result v run =
    let o = open_stream-IsOpened c l service tape v in
    let first : Channel = record { connection = o.connection; stream = o.stream } in
    let (after, r) = run o.stream o.limit first o.supplies in
    (
      (close_now after).connection,
      in_scope-runs body result o.stream o.connection after (open_stream service (linked c l))
          o.runs r,
    )

-- and where it works.
pub with_stream-Serves :
    {A : Type 0} (c : Connection) (l : Link) (service tape : List ℕ)
    (body : Channel → Result A × Channel) (a : A)
    → Serves c l service tape
    → ((s : Stream) (limit : ℕ) (d : Channel)
        → Supplies (numbered c) s limit tape d
        → (after : Channel) × (body d ≡ (ok a, after)))
    → (after : Connection) × (with_stream service body (linked c l) ≡ (ok a, after))
with_stream-Serves c l service tape body a v run =
    with_stream-result c l service tape body (ok a) v run
