-- ===== src/Tcp/Opening.antt =====
-- `connect_with_timeout` and `TcpTransport::open` of src/tcp/tcp_transport.cpp.
use adbcpp.Base.{
  ℕ, Bool, true, false, not, ◌==◌, if◌then◌else◌, List, [], ◌∷◌, ◌++◌, Option, none, some, codes,
  inl, inr,
}
use adbcpp.Outcome.{Result, ok, err, transport}
use adbcpp.Outcome.Exec.{Exec, ◌>>=◌, lift}
use adbcpp.Tcp.Endpoint.{split_endpoint}
use adbcpp.Tcp.Channel.{select_failed, select_idle, select_ready, Sockets, Tcp, make_timeval}

module _ {D A : Type 0} (os : Sockets D A) where
  -- The part of `connect_with_timeout` for a connect that is not done at once: whether the socket
  -- becomes writable in time and has no error.
  unfoldable pub await_connected : ℕ → ℕ → D → Bool × D
  await_connected descriptor timeout_ms d =
      let ready = os.select_writable descriptor (make_timeval timeout_ms) d in
      let state = os.so_error descriptor ready.1 in
      elim ready.0 [
        | select_failed ↦ (false, ready.1)
        | select_idle ↦ (false, ready.1)
        | select_ready ↦ elim state.0 [ none ↦ (false, state.1) | some code ↦ (code == 0, state.1) ]
      ]

  -- The end of `connect_with_timeout`: the flags are put back. The flag of `set_flags` says whether
  -- O_NONBLOCK is added.
  abbrev pub restore_flags : ℕ → ℕ → Bool × D → Bool × D
  restore_flags descriptor flags (false, d) = (false, d)
  restore_flags descriptor flags (true, d) = os.set_flags descriptor false flags d

  unfoldable pub connect_with_timeout : ℕ → A → ℕ → D → Bool × D
  connect_with_timeout descriptor address timeout_ms d =
      let got = os.get_flags descriptor d in
      elim got.0 [
        | none ↦ (false, got.1)
        | some flags ↦
            let set = os.set_flags descriptor true flags got.1 in
            let connected = os.connect_to descriptor address set.1 in
            let awaited = await_connected descriptor timeout_ms connected.1 in
            elim set.0 [
              | false ↦ (false, set.1)
              | true ↦ elim connected.0 [
                | true ↦ restore_flags descriptor flags (true, connected.1)
                | false ↦
                    if not (os.timed_out connected.1)
                    then (false, connected.1)
                    else restore_flags descriptor flags awaited
              ]
            ]
      ]

  -- The loop of `open` over the addresses: the first that connects is used, and the socket of one
  -- that does not is closed.
  abbrev pub connect_first : List A → ℕ → D → Option ℕ × D
  connect_first [] timeout_ms d = (none, d)
  connect_first (address ∷ rest) timeout_ms d =
      let made = os.socket address d in
      elim made.0 [
        | none ↦ connect_first rest timeout_ms made.1
        | some descriptor ↦
            let tried = connect_with_timeout descriptor address timeout_ms made.1 in
            elim tried.0 [
              | true ↦ (some descriptor, tried.1)
              | false ↦ connect_first rest timeout_ms (os.close_socket descriptor tried.1)
            ]
      ]

  -- The end of `open`, where the socket is connected or no address is left.
  abbrev pub connected_as : List ℕ → ℕ → ℕ → Option ℕ × D → Result (Tcp D) × D
  connected_as endpoint timeout_ms budget_ms (none, d) = (
    err (record {
      code = transport;
      message = "could not connect to ";
      detail = endpoint ++ codes ": " ++ os.last_socket_error d;
    }),
    d,
  )
  connected_as endpoint timeout_ms budget_ms (some descriptor, d) =
      let timeval = make_timeval timeout_ms in
      let ready = os.set_timeouts descriptor timeval (os.set_no_delay descriptor d) in
      (
        ok (record {
          net = ready;
          descriptor = some descriptor;
          endpoint = endpoint;
          transfer_timeout_ms = timeout_ms;
          transfer_budget_ms = budget_ms;
        }),
        ready,
      )

  unfoldable pub resolve : List ℕ → List ℕ → Exec D (List A)
  resolve host port d =
      let r = os.getaddrinfo host port d in
      (
        elim r.0 [
          | inl reason ↦
              err (record {
                code = transport;
                message = "getaddrinfo";
                detail = codes ": " ++ reason;
              })
          | inr addresses ↦ ok addresses
        ],
        r.1,
      )

  unfoldable pub open_endpoint : List ℕ → ℕ → ℕ → ℕ → Exec D (Tcp D)
  open_endpoint endpoint connect_timeout_ms timeout_ms budget_ms = do
    parts ← lift (split_endpoint endpoint)
    addresses ← resolve parts.0 parts.1
    λ d. connected_as endpoint timeout_ms budget_ms (connect_first addresses connect_timeout_ms d)
