-- ===== src/Session.antt =====
-- src/session.cpp and include/adbcpp/session.hpp: framed messages over a transport. The session
-- borrows its transport; nobody else uses it meanwhile, so it stands in the session's state.
pub mod Reading
pub mod Frames
pub mod Receiving
pub mod Sending
pub mod Totality
pub mod History
use adbcpp.Base.{
  ℕ, zero, suc, ◌-◌, List, [], ◌∷◌, ◌++◌, String, Bool, true, is_empty, false, not, ◌&&◌, ltb, ◌==◌,
  if◌then◌else◌, length,
}
use adbcpp.Outcome.{Result, Status, ok, err, stuck, error, transport, protocol, invalid_argument}
use adbcpp.Outcome.Exec.{Exec, pure, fail, ◌>>=◌, ◌>>◌, continue}
use adbcpp.Transport
use adbcpp.Transport.{Link}
use adbcpp.Protocol.Commands.{max_data}
use adbcpp.Protocol.Message.{Message, compute_magic, compute_checksum, encode, decode}

pub record Frame : Type 0 where
  pub header : Message
  pub payload : List ℕ

pub record Session : Type 0 where
  pub link : Link
  pub closed : Bool

abbrev pub over : Link → Session
over l = record { link = l; closed = false }

-- A call of the transport.
abbrev pub on_link {ℓ} : {A : Type ℓ} → (Link → Result A × Link) → Session → Result A × Session
on_link m s = ((m s.link).0, record s { link = (m s.link).1 })

-- The loop of `read_exact`: `n` is `buffer.size() - total`. Each round reads a byte at least.
read_loop : ℕ → ℕ → Exec Link (List ℕ)
read_loop fuel zero l = (ok [], l)
read_loop zero (suc n) l = (stuck, l)
read_loop (suc fuel) (suc n) l =
    (do
      count ← Transport.read (suc n)
      if length count == 0
          then fail (error protocol "unexpected end of stream")
          else do rest ← read_loop fuel (suc n - length count); pure (count ++ rest))
      l

unfoldable pub read_exact : ℕ → Exec Link (List ℕ)
unfolding read_loop
read_exact n = read_loop n n

unfoldable pub close : Session → Session
close s = if s.closed then s else record s { closed = true; link = Transport.close s.link }

-- `framing_error`, and the return of the error that it makes.
unfoldable pub framing_error : {A : Type 0} → String → Exec Session A
framing_error message s = (err (error protocol message), close s)

unfoldable pub send : Message → List ℕ → Exec Session Unit
send header payload s =
    if s.closed
    then (err (error transport "the session is closed"), s)
    else if not (header.data_length == length payload)
    then (err (error invalid_argument "the header data_length does not match the payload"), s)
    else (do
      on_link (Transport.write (encode header))
      if is_empty payload then pure tt else on_link (Transport.write payload))
        s

-- The part of `receive` behind the header, which is the frame's.
unfoldable pub receive_payload : Message → Exec Session Frame
receive_payload header =
    if not (header.magic == compute_magic header.command)
    then framing_error "the header magic does not match its command"
    else if ltb max_data header.data_length
    then framing_error "the header payload length is past the maximum"
    else if header.data_length == 0
    then pure (record { header = header; payload = [] })
    else do
      payload ← on_link (read_exact header.data_length)
      if not (header.data_check == 0) && not (header.data_check == compute_checksum payload)
          then framing_error "the header payload checksum does not match the payload"
          else pure (record { header = header; payload = payload })

unfoldable pub receive : Exec Session Frame
receive s =
    if s.closed
    then (err (error transport "the session is closed"), s)
    else (do bytes ← on_link (read_exact 24); receive_payload (decode bytes)) s

-- The move constructor: the new session, and what is left of the one that was moved from.
unfoldable pub move_from : Session → Session × Session
move_from other =
    (record { link = other.link; closed = other.closed }, record other { closed = true })
