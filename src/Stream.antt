-- ===== src/Stream.antt =====
-- src/stream.cpp and include/adbcpp/stream.hpp: a stream to a service of the device.
pub mod Steps
pub mod Next
pub mod Opening
pub mod Payloads
pub mod Supply
pub mod Writing
pub mod Serving
pub mod Reading
pub mod Moving
pub mod Owning
use adbcpp.Base.{
  ℕ, zero, suc, ◌+◌, ◌-◌, List, [], ◌∷◌, ◌++◌, String, Bool, true, false, not, ltb, leb, ◌==◌,
  if◌then◌else◌, length, take, drop, min,
}
use adbcpp.Outcome.{Result, Status, ok, err, stuck, error, protocol, invalid_argument}
use adbcpp.Outcome.Exec.{Exec, pure, fail, lift, ◌>>=◌, ◌>>◌, continue}
use adbcpp.Transport.{weight}
use adbcpp.Protocol.Commands.{open_command, okay, clse, wrte, initial_delayed_ack_bytes}
use adbcpp.Protocol.Message.{Message, compute_magic, compute_checksum, data_length_of}
use adbcpp.Session.{Frame}
use adbcpp.Connection
use adbcpp.Connection.{Connection}

pub record Stream : Type 0 where
  pub service : List ℕ
  pub local_id : ℕ
  pub remote_id : ℕ
  pub closed : Bool
  pub incoming : List ℕ
  pub incoming_offset : ℕ

-- A stream with the connection that it borrows.
pub record Channel : Type 0 where
  pub connection : Connection
  pub stream : Stream

unfoldable pub make_empty_message : ℕ → ℕ → ℕ → Message
make_empty_message command arg0 arg1 = record {
  command = command;
  arg0 = arg0;
  arg1 = arg1;
  data_length = 0;
  data_check = 0;
  magic = compute_magic command;
}

unfoldable pub make_message : ℕ → ℕ → ℕ → List ℕ → Result Message
make_message command arg0 arg1 payload = elim (data_length_of payload) [
  | ok length ↦ ok (record {
    command = command;
    arg0 = arg0;
    arg1 = arg1;
    data_length = length;
    data_check = compute_checksum payload;
    magic = compute_magic command;
  })
  | err e ↦ err e
  | stuck ↦ stuck
]

abbrev pub on_connection : {A : Type 0} → Exec Connection A → Exec Channel A
on_connection m c = ((m c.connection).0, record c { connection = (m c.connection).1 })

-- Also the destructor. The result of the transfer is dropped.
unfoldable pub close_now : Channel → Channel
close_now c = if c.stream.closed then c else record {
  connection =
      (Connection.send (make_empty_message clse c.stream.local_id c.stream.remote_id) []
        c.connection).1;
  stream = record c.stream { closed = true };
}

-- The loop of `open` that waits for the answer to OPEN.
unfoldable pub await_okay : ℕ → Exec Channel Unit
await_okay zero c = (stuck, c)
await_okay (suc fuel) c =
    (do
      frame ← on_connection Connection.receive
      if not (frame.header.arg1 == c.stream.local_id) then await_okay fuel else λ d.
          if not (frame.header.command == okay)
          then (err (error protocol "failed to open the stream"), d)
          else (ok tt, record d { stream = record d.stream { remote_id = frame.header.arg0 } }))
      c

-- Enough rounds for every frame that the link can still deliver.
abbrev pub rounds : Connection → ℕ
rounds c = suc (weight c.session.link.arrivals)

-- OPEN, with the service as a C string.
unfoldable pub request_open : Exec Channel Unit
request_open c =
    (do
      let destination = c.stream.service ++ 0 ∷ []
      message ← lift (
          make_message open_command c.stream.local_id
            (if c.connection.delayed_ack then initial_delayed_ack_bytes else 0) destination)
      on_connection (Connection.send message destination))
      c

-- The constructor.
abbrev pub unopened : List ℕ → ℕ → Stream
unopened service local_id = record {
  service = service;
  local_id = local_id;
  remote_id = 0;
  closed = false;
  incoming = [];
  incoming_offset = 0;
}

-- The stream that failed to open is destroyed, which closes it.
abbrev pub opened : Status × Channel → Result Stream × Connection
opened (ok _, c) = (ok c.stream, c.connection)
opened (err e, c) = (err e, (close_now c).connection)
opened (stuck, c) = (stuck, c.connection)

unfoldable pub open_stream : List ℕ → Exec Connection Stream
open_stream service = do
  local_id ← Connection.allocate_local_id
  λ c. opened (
      (request_open >> λ d. await_okay (rounds d.connection) d)
        (record { connection = c; stream = unopened service local_id }))

unfoldable pub write : List ℕ → Exec Channel Unit
write bytes c =
    if ltb c.connection.peer_max_data (length bytes)
    then (err (error invalid_argument "the write is larger than the negotiated maximum payload"), c)
    else (do
      message ← lift (make_message wrte c.stream.local_id c.stream.remote_id bytes)
      on_connection (Connection.send message bytes))
        c

-- What `receive_more` does with a frame of its own stream; `again` goes on with the loop.
unfoldable pub dispatch : Exec Channel Bool → Frame → Exec Channel Bool
dispatch again frame c =
    if frame.header.command == wrte
    then (do
      on_connection
          (Connection.send (make_empty_message okay c.stream.local_id c.stream.remote_id) [])
      pure true)
        (record c { stream = record c.stream { incoming = frame.payload; incoming_offset = 0 } })
    else if frame.header.command == okay
    then again c
    else if frame.header.command == clse
    then (ok false, record c { stream = record c.stream { closed = true } })
    else (err (error protocol "unexpected message on the stream"), c)

unfoldable pub receive_loop : ℕ → Exec Channel Bool
receive_loop zero c = (stuck, c)
receive_loop (suc fuel) c =
    (do
      frame ← on_connection Connection.receive
      if not (frame.header.arg1 == c.stream.local_id)
          then receive_loop fuel
          else dispatch (receive_loop fuel) frame)
      c

unfoldable pub receive_more : Exec Channel Bool
receive_more c = receive_loop (rounds c.connection) c

-- What is buffered and not yet handed out.
abbrev pub buffered : Stream → List ℕ
buffered s = drop s.incoming_offset s.incoming

-- `receive_more` unless something is buffered.
unfoldable pub refill : Exec Channel Unit
refill c =
    if leb (length c.stream.incoming) c.stream.incoming_offset
    then (do
      more ← receive_more
      if more then pure tt else fail (error protocol "the device closed the stream"))
        c
    else (ok tt, c)

-- Hands out at most `n` buffered bytes.
unfoldable pub take_buffered : ℕ → Exec Channel (List ℕ)
take_buffered n c =
    let count = min (length c.stream.incoming - c.stream.incoming_offset) n in
    (
      ok (take count (buffered c.stream)),
      record c { stream = record c.stream { incoming_offset = c.stream.incoming_offset + count } },
    )

-- The loop of `read`; the number of bytes is `buffer.size() - total`.
unfoldable pub fill : ℕ → ℕ → Exec Channel (List ℕ)
fill fuel zero c = (ok [], c)
fill zero (suc n) c = (stuck, c)
fill (suc fuel) (suc n) c =
    (do
      refill
      bytes ← take_buffered (suc n)
      rest ← fill fuel (suc n - length bytes)
      pure (bytes ++ rest))
      c

-- Each round takes a byte, or a frame that was not there before.
unfoldable pub read : ℕ → Exec Channel (List ℕ)
read n c = fill (n + rounds c.connection) n c

abbrev pub drained : Channel → Channel
drained c = record c { stream = record c.stream { incoming = []; incoming_offset = 0 } }

-- The loop of `read_all`, on the output so far.
unfoldable pub gather : ℕ → List ℕ → Exec Channel (List ℕ)
gather zero output c = (stuck, c)
gather (suc fuel) output c =
    (do
      more ← receive_more
      if not more then pure output else λ d. gather fuel (output ++ d.stream.incoming) (drained d))
      c

unfoldable pub read_all : Exec Channel (List ℕ)
read_all c = gather (rounds c.connection) (buffered c.stream) (drained c)

-- A scope with a stream of its own, which is destroyed at the end, whatever the result.
abbrev pub in_scope :
    {A : Type 0}
    → (Channel → Result A × Channel)
    → Result Stream × Connection
    → Result A × Connection
in_scope body (ok s, c) =
    let (r, d) = body (record { connection = c; stream = s }) in (r, (close_now d).connection)
in_scope body (err e, c) = (err e, c)
in_scope body (stuck, c) = (stuck, c)

unfoldable pub with_stream : {A : Type 0} → List ℕ → Exec Channel A → Exec Connection A
with_stream service body c = in_scope body (open_stream service c)
