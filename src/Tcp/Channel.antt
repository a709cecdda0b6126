-- ===== src/Tcp/Channel.antt =====
-- `TcpTransport` of src/tcp/tcp_transport.cpp: reading, writing, waiting and closing.
use adbcpp.Base.{
  ℕ, zero, suc, ◌+◌, ◌*◌, ◌/◌, ◌%◌, Bool, true, false, not, ◌||◌, leb, if◌then◌else◌, List, [],
  ◌++◌, Option, none, some, String, length, drop, is_empty, codes, ◌⊎◌,
}
use adbcpp.Outcome.{Error, Status, ok, err, stuck, error, transport}
use adbcpp.Outcome.Exec.{Exec}

-- What `select` answers: an error, nothing in time, or a socket that is ready.
pub data Selected : Type 0 where
  select_failed select_idle select_ready : Selected

-- The calls on a socket, and the clock. `recv` gives bytes (none at the end of the stream) or fails
-- (`none`), `send` a number of bytes or fails; `timed_out` and `last_socket_error` read the error of
-- the call before, `getaddrinfo` gives addresses or the text of its error, and `set_timeouts` sets
-- SO_RCVTIMEO and SO_SNDTIMEO. A timeval is seconds and microseconds. `A` is an address of a host.
pub record Sockets (D A : Type 0) : Type 0 where
  pub recv : Option ℕ → ℕ → D → Option (List ℕ) × D
  pub send : Option ℕ → List ℕ → D → Option ℕ × D
  pub select_readable : Option ℕ → ℕ × ℕ → D → Selected × D
  pub select_writable : ℕ → ℕ × ℕ → D → Selected × D
  pub timed_out : D → Bool
  pub last_socket_error : D → List ℕ
  pub now : D → ℕ
  pub close_socket : ℕ → D → D
  pub getaddrinfo : List ℕ → List ℕ → D → (List ℕ ⊎ List A) × D
  pub socket : A → D → Option ℕ × D
  pub get_flags : ℕ → D → Option ℕ × D
  pub set_flags : ℕ → Bool → ℕ → D → Bool × D
  pub connect_to : ℕ → A → D → Bool × D
  pub so_error : ℕ → D → Option ℕ × D
  pub set_no_delay : ℕ → D → D
  pub set_timeouts : ℕ → ℕ × ℕ → D → D

pub record Tcp (D : Type 0) : Type 0 where
  pub net : D
  pub descriptor : Option ℕ
  pub endpoint : List ℕ
  pub transfer_timeout_ms : ℕ
  pub transfer_budget_ms : ℕ

-- Seconds and microseconds of milliseconds.
unfoldable pub make_timeval : ℕ → ℕ × ℕ
make_timeval milliseconds = (milliseconds / 1000, milliseconds % 1000 * 1000)

module _ {D A : Type 0} (os : Sockets D A) where
  unfoldable pub socket_error : String → D → Error
  socket_error what d = record {
    code = transport;
    message = what;
    detail = codes ": " ++ os.last_socket_error d;
  }

  -- The loop of `read`.
  abbrev pub read_loop : ℕ → Option ℕ → ℕ → ℕ → Exec D (List ℕ)
  read_loop zero descriptor deadline n d = (stuck, d)
  read_loop (suc fuel) descriptor deadline n d =
      let answer = os.recv descriptor n d in
      let again = read_loop fuel descriptor deadline n answer.1 in
      elim answer.0 [
        | some bytes ↦ (ok bytes, answer.1)
        | none ↦
            if not (os.timed_out answer.1) || leb deadline (os.now answer.1)
            then (err (socket_error "recv" answer.1), answer.1)
            else again
      ]

  unfoldable pub read : ℕ → Exec (Tcp D) (List ℕ)
  read zero t = (ok [], t)
  read (suc n) t =
      let r =
        read_loop (suc t.transfer_budget_ms) t.descriptor (os.now t.net + t.transfer_budget_ms)
          (suc n) t.net in
      (r.0, record t { net = r.1 })

  -- A round of the loop of `write` behind its `send`; `again` is the loop on what is left.
  abbrev pub send_answer : (List ℕ → D → Status × D) → ℕ → List ℕ → Option ℕ × D → Status × D
  send_answer again deadline bytes (some zero, d) =
      (err (error transport "the peer closed the connection"), d)
  send_answer again deadline bytes (some (suc sent), d) = again (drop (suc sent) bytes) d
  send_answer again deadline bytes (none, d) =
      let retried = again bytes d in
      if not (os.timed_out d) || leb deadline (os.now d)
      then (err (socket_error "send" d), d)
      else retried

  abbrev pub write_loop : ℕ → Option ℕ → ℕ → List ℕ → D → Status × D
  write_loop zero descriptor deadline bytes d = (stuck, d)
  write_loop (suc fuel) descriptor deadline bytes d =
      if is_empty bytes
      then (ok tt, d)
      else send_answer (write_loop fuel descriptor deadline) deadline bytes
          (os.send descriptor bytes d)

  unfoldable pub write : List ℕ → Exec (Tcp D) Unit
  write bytes t =
      let r =
        write_loop (length bytes + suc t.transfer_budget_ms) t.descriptor
          (os.now t.net + t.transfer_budget_ms) bytes t.net in
      (r.0, record t { net = r.1 })

  unfoldable pub wait_readable : ℕ → Exec (Tcp D) Bool
  wait_readable wait t =
      let r = os.select_readable t.descriptor (make_timeval wait) t.net in
      (
        elim r.0 [
          | select_failed ↦ err (socket_error "select" r.1)
          | select_idle ↦ ok false
          | select_ready ↦ ok true
        ],
        record t { net = r.1 },
      )

  unfoldable pub close : Tcp D → Tcp D
  close t = elim t.descriptor [
    | none ↦ t
    | some descriptor ↦ record t { net = os.close_socket descriptor t.net; descriptor = none }
  ]

  unfoldable pub set_transfer_timeout : ℕ → Tcp D → Tcp D
  set_transfer_timeout milliseconds t = elim t.descriptor [
    | none ↦ record t { transfer_timeout_ms = milliseconds }
    | some descriptor ↦ record t {
      transfer_timeout_ms = milliseconds;
      net = os.set_timeouts descriptor (make_timeval milliseconds) t.net;
    }
  ]

unfoldable pub set_transfer_budget : {D : Type 0} → ℕ → Tcp D → Tcp D
set_transfer_budget milliseconds t = record t { transfer_budget_ms = milliseconds }
