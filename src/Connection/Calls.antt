-- ===== src/Connection/Calls.antt =====
-- `send` and `receive` of src/connection.cpp on a connection with an open session.
use adbcpp.Base.{ℕ, ◌≡◌, List, [], ◌∷◌, length}
use adbcpp.Outcome.{ok}
use adbcpp.Transport.{Link}
use adbcpp.Protocol.Message.{Message, encode, compute_magic, compute_checksum}
use adbcpp.Session.{Frame, over}
use adbcpp.Session.Receiving.{awaiting, Receives}
use adbcpp.Session.Sending.{sending, payload_transfers, send_both}
use adbcpp.Connection
use adbcpp.Connection.{Connection}

-- The connection with an open session over `l`.
abbrev pub linked : Connection → Link → Connection
linked c l = record c { session = over l }

pub receive-linked :
    (c : Connection) (l : Link) {f : Frame} {rest : List ℕ} (r : Receives l f rest)
    → Connection.receive (linked c l) ≡ (ok f, linked c (awaiting l r.after))
unfolding Connection.receive
receive-linked c l r = rw r.runs

pub send-linked :
    (c : Connection) (l : Link) (h : Message) (payload : List ℕ)
    → l.verdicts ≡ []
    → h.data_length ≡ length payload
    → Connection.send h payload (linked c l)
      ≡ (ok tt, linked c (sending l (encode h ∷ payload_transfers payload)))
unfolding Connection.send
send-linked c l h payload v e = rw (send_both l h payload v e)

-- The frame whose header is made from its payload.
abbrev pub message_frame : ℕ → ℕ → ℕ → List ℕ → Frame
message_frame command arg0 arg1 payload = record {
  header = record {
    command = command;
    arg0 = arg0;
    arg1 = arg1;
    data_length = length payload;
    data_check = compute_checksum payload;
    magic = compute_magic command;
  };
  payload = payload;
}
