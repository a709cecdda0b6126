-- ===== src/Examples/Frames.antt =====
-- Headers, frames and sessions at concrete inputs.
use adbcpp.Base.{◌⊎◌, ℕ, ◌-◌, ◌≡◌, refl, List, [], ◌∷◌, ◌++◌, arith, false, inr, take, drop, codes}
use adbcpp.Outcome.{ok}
use adbcpp.Transport.{Arrival, chunk, Link}
use adbcpp.Transport.Deliver.{deliverable}
use adbcpp.Protocol.ByteOrder.{write_u32_le}
use adbcpp.Protocol.Commands.{wrte}
use adbcpp.Protocol.Message.{Message, IsMessage, compute_magic, compute_checksum, encode}
use adbcpp.Session.{read_exact, Frame, over, send, receive}
use adbcpp.Session.Frames.{IsFrame}
use adbcpp.Session.Receiving.{Receives}
use adbcpp.Session.Sending.{flatten, transfers, sending, receive-send}
use adbcpp.Session.Reading.{Fills, Breaks, read_exact-cases}
use adbcpp.Session.Totality.{ReceiveEnd, receive-ReceiveEnd}
use adbcpp.Session.History.{
  Call, send_call, receive_call, close_call, run_all, History, run_all-History,
}

-- WRTE(3, 2, "hi")
abbrev pub greeting : Message
greeting = record {
  command = wrte;
  arg0 = 3;
  arg1 = 2;
  data_length = 2;
  data_check = 209;
  magic = 0xffff_ffff - wrte;
}

abbrev pub greeting_frame : Frame
greeting_frame = record { header = greeting; payload = codes "hi" }

pub greeting-IsMessage : IsMessage greeting
greeting-IsMessage = omega arith

pub greeting-IsFrame : IsFrame greeting_frame
unfolding compute_magic compute_checksum
greeting-IsFrame = record {
  words = greeting-IsMessage;
  consistent = record { magic = refl; size = refl; bound = omega arith; check = inr (inr refl) };
}

-- A link that delivers `bytes` in pieces of 10 bytes at most, then `more`.
abbrev pub pieces : List ℕ → List Arrival
pieces bytes = chunk (take 10 bytes) ∷ chunk (take 10 (drop 10 bytes)) ∷ chunk (drop 20 bytes) ∷ []

abbrev pub link_of : List Arrival → Link
link_of arrivals = record {
  arrivals = arrivals;
  verdicts = [];
  written = [];
  closed = false;
  serial = [];
}

abbrev peer : Link
peer = link_of (pieces (encode greeting ++ codes "hi"))

read_exact-cases_example : Fills 24 peer (read_exact 24 peer) ⊎ Breaks 24 peer (read_exact 24 peer)
read_exact-cases_example = read_exact-cases 24 peer

receive-send_example :
    (sent : List (List ℕ)) × (send greeting (codes "hi") (over (link_of []))
      ≡ (ok tt, over (sending (link_of []) sent)))
    × (deliverable peer.arrivals ≡ flatten sent ++ [] → Receives peer greeting_frame [])
receive-send_example = receive-send (link_of []) peer greeting_frame [] refl greeting-IsFrame

-- The hypothesis on the peer holds.
peer_delivers : deliverable peer.arrivals ≡ flatten (transfers greeting_frame) ++ []
unfolding encode write_u32_le
peer_delivers = refl

receive-ReceiveEnd_example : ReceiveEnd peer (receive (over peer))
unfolding encode write_u32_le
receive-ReceiveEnd_example = receive-ReceiveEnd peer (omega arith)

-- A session that sends, receives, sends again with a wrong length, closes and sends.
abbrev some_calls : List Call
some_calls =
    send_call greeting_frame
    ∷ receive_call
    ∷ send_call (record { header = greeting; payload = codes "hello" })
    ∷ close_call
    ∷ send_call greeting_frame
    ∷ []

run_all-History_example : History peer some_calls (run_all some_calls (over peer))
run_all-History_example = run_all-History peer some_calls refl
