-- ===== src/Stream/Steps.antt =====
-- One frame through a stream: what `receive_loop` and `await_okay` do with it.
use adbcpp.Base.{ℕ, suc, ◌≡◌, refl, List, [], ◌∷◌, Bool, true, false, length, ◌==◌, IsU32}
use adbcpp.Outcome.{Result, ok, err, error, protocol}
use adbcpp.Transport.{Link}
use adbcpp.Protocol.Commands.{okay, clse, wrte}
use adbcpp.Protocol.Message.{encode}
use adbcpp.Protocol.Message.Checks.{data_length_of-ok}
use adbcpp.Session.{Frame}
use adbcpp.Session.Receiving.{awaiting, Receives}
use adbcpp.Session.Sending.{sending}
use adbcpp.Connection.{Connection}
pub use adbcpp.Connection.Calls.{linked, receive-linked, send-linked, message_frame}
use adbcpp.Stream.{
  Stream, Channel, make_empty_message, make_message, receive_loop, dispatch, await_okay,
}

-- The channel over `l`.
abbrev pub chan : Connection → Link → Stream → Channel
chan c l s = record { connection = linked c l; stream = s }

-- The acknowledgement of a WRTE.
abbrev pub ack : Stream → List ℕ
ack s = encode (make_empty_message okay s.local_id s.remote_id)

pub make_message-frame :
    (command arg0 arg1 : ℕ) (payload : List ℕ)
    → IsU32 (length payload)
    → make_message command arg0 arg1 payload ≡ ok (message_frame command arg0 arg1 payload).header
unfolding make_message
make_message-frame command arg0 arg1 payload u = rw (data_length_of-ok payload u, make_message)

-- The stream with a payload to hand out.
abbrev pub holding : Stream → List ℕ → Stream
holding s payload = record s { incoming = payload; incoming_offset = 0 }

module _ (c : Connection) (l : Link) (s : Stream) (fuel : ℕ) {f : Frame} {rest : List ℕ}
    (r : Receives l f rest) where
  abbrev pub later : Link
  later = awaiting l r.after

  pub loop_other :
      (f.header.arg1 == s.local_id) ≡ false
      → receive_loop (suc fuel) (chan c l s) ≡ receive_loop fuel (chan c later s)
  unfolding receive_loop
  loop_other e = rw (receive-linked c l r, e)

  pub loop_mine :
      (f.header.arg1 == s.local_id) ≡ true
      → receive_loop (suc fuel) (chan c l s) ≡ dispatch (receive_loop fuel) f (chan c later s)
  unfolding receive_loop
  loop_mine e = rw (receive-linked c l r, e)

  pub await_other :
      (f.header.arg1 == s.local_id) ≡ false
      → await_okay (suc fuel) (chan c l s) ≡ await_okay fuel (chan c later s)
  unfolding await_okay
  await_other e = rw (receive-linked c l r, e)

  pub await_accept :
      (f.header.arg1 == s.local_id) ≡ true
      → (f.header.command == okay) ≡ true
      → await_okay (suc fuel) (chan c l s)
        ≡ (ok tt, chan c later (record s { remote_id = f.header.arg0 }))
  unfolding await_okay
  await_accept e k = rw (receive-linked c l r, e, k)

  pub await_refuse :
      (f.header.arg1 == s.local_id) ≡ true
      → (f.header.command == okay) ≡ false
      → await_okay (suc fuel) (chan c l s)
        ≡ (err (error protocol "failed to open the stream"), chan c later s)
  unfolding await_okay
  await_refuse e k = rw (receive-linked c l r, e, k)

-- What `dispatch` does with each command.
module _ (c : Connection) (l : Link) (s : Stream) (again : Channel → Result Bool × Channel)
    (f : Frame) where
  pub dispatch-wrte :
      (f.header.command == wrte) ≡ true
      → l.verdicts ≡ []
      → dispatch again f (chan c l s)
        ≡ (ok true, chan c (sending l (ack s ∷ [])) (holding s f.payload))
  unfolding dispatch make_empty_message
  dispatch-wrte e v =
      rw (e, send-linked c l (make_empty_message okay s.local_id s.remote_id) [] v refl)

  pub dispatch-okay :
      (f.header.command == wrte) ≡ false
      → (f.header.command == okay) ≡ true
      → dispatch again f (chan c l s) ≡ again (chan c l s)
  unfolding dispatch
  dispatch-okay e k = rw (e, k)

  pub dispatch-clse :
      (f.header.command == wrte) ≡ false
      → (f.header.command == okay) ≡ false
      → (f.header.command == clse) ≡ true
      → dispatch again f (chan c l s) ≡ (ok false, chan c l (record s { closed = true }))
  unfolding dispatch
  dispatch-clse e k t = rw (e, k, t)

  pub dispatch-bad :
      (f.header.command == wrte) ≡ false
      → (f.header.command == okay) ≡ false
      → (f.header.command == clse) ≡ false
      → dispatch again f (chan c l s)
        ≡ (err (error protocol "unexpected message on the stream"), chan c l s)
  unfolding dispatch
  dispatch-bad e k t = rw (e, k, t)
