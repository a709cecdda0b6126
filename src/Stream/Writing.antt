-- ===== src/Stream/Writing.antt =====
-- A write to a stream of src/stream.cpp is one WRTE.
use adbcpp.Base.{ℕ, ◌≤◌, ◌<◌, ◌≡◌, refl, ap, ◌∙◌, List, [], length, IsU32, not_lt→ltb, lt→ltb}
use adbcpp.Outcome.{ok, err, error, invalid_argument}
use adbcpp.Transport.{Link}
use adbcpp.Protocol.Commands.{wrte}
use adbcpp.Session.{Frame}
use adbcpp.Session.Sending.{sending, transfers}
use adbcpp.Connection.{Connection}
use adbcpp.Stream
use adbcpp.Stream.{Stream, Channel, make_message}
use adbcpp.Stream.Steps.{chan, send-linked, message_frame, make_message-frame}
use adbcpp.Stream.Supply.{filled, Supplies}

-- A WRTE of the stream with these bytes.
abbrev pub wrte_frame : Stream → List ℕ → Frame
wrte_frame s bytes = message_frame wrte s.local_id s.remote_id bytes

pub write-linked :
    (c : Connection) (l : Link) (s : Stream) (bytes : List ℕ)
    → l.verdicts ≡ []
    → length bytes ≤ c.peer_max_data
    → IsU32 (length bytes)
    → Stream.write bytes (chan c l s)
      ≡ (ok tt, chan c (sending l (transfers (wrte_frame s bytes))) s)
unfolding Stream.write
write-linked c l s bytes v h u = rw (
  not_lt→ltb c.peer_max_data (length bytes) h,
  make_message-frame wrte s.local_id s.remote_id bytes u,
  send-linked c l (wrte_frame s bytes).header bytes v refl,
)

pub write-refused :
    (c : Connection) (l : Link) (s : Stream) (bytes : List ℕ)
    → c.peer_max_data < length bytes
    → Stream.write bytes (chan c l s) ≡ (
      err (error invalid_argument "the write is larger than the negotiated maximum payload"),
      chan c l s,
    )
unfolding Stream.write
write-refused c l s bytes h = rw (lt→ltb c.peer_max_data (length bytes) h)

-- A write changes nothing about what there is to read.
pub write-Supplies :
    (c : Connection) (s : Stream) (limit : ℕ) (tape bytes : List ℕ) (d : Channel)
    → Supplies c s limit tape d
    → length bytes ≤ c.peer_max_data
    → IsU32 (length bytes)
    → (after : Channel) × (Stream.write bytes d ≡ (ok tt, after)) × Supplies c s limit tape after
write-Supplies c s limit tape bytes d u h b =
    let now = filled s u.incoming u.offset in
    let link = sending u.link (transfers (wrte_frame now bytes)) in
    (
      chan c link now,
      ap (Stream.write bytes) u.is ∙ write-linked c u.link now bytes u.accepts h b,
      record {
        link = link;
        incoming = u.incoming;
        offset = u.offset;
        frames = u.frames;
        rest = u.rest;
        is = refl;
        accepts = u.accepts;
        well = u.well;
        delivers = u.delivers;
        holds = u.holds;
        within = u.within;
      },
    )
