-- ===== src/Tcp/Leaving.antt =====
-- What `TcpTransport::open` of src/tcp/tcp_transport.cpp leaves open.
use adbcpp.Base.{
  ℕ, Bool, true, false, ◌≡◌, refl, ap, ◌∙◌, List, [], ◌∷◌, ◌⊎◌, inl, inr, Option, none, some,
  Bool-cases, Option-cases, ◌++◌, codes, ◌==◌,
}
use adbcpp.Outcome.{Result, ok, err, stuck, transport}
use adbcpp.Outcome.Exec.{continue, ◌>>=◌}
use adbcpp.Tcp.Endpoint.{split_endpoint}
use adbcpp.Tcp.Channel.{
  Selected, select_failed, select_idle, select_ready, Sockets, Tcp, make_timeval,
}
use adbcpp.Tcp.Opening.{
  await_connected, restore_flags, connect_with_timeout, connect_first, connected_as, resolve,
  open_endpoint,
}

-- The sockets that are open, the last one first: a call makes one or closes it, and no other call
-- of an open does.
pub record Counts {D A : Type 0} (os : Sockets D A) (sockets : D → List ℕ) : Type 0 where
  pub makes :
      (address : A) (d : D) (descriptor : ℕ)
      → (os.socket address d).0 ≡ some descriptor
      → sockets (os.socket address d).1 ≡ descriptor ∷ sockets d
  pub makes_none :
      (address : A) (d : D)
      → (os.socket address d).0 ≡ none
      → sockets (os.socket address d).1 ≡ sockets d
  pub closes :
      (descriptor : ℕ) (rest : List ℕ) (d : D)
      → sockets d ≡ descriptor ∷ rest
      → sockets (os.close_socket descriptor d) ≡ rest
  pub get_flags_keeps : (n : ℕ) (d : D) → sockets (os.get_flags n d).1 ≡ sockets d
  pub set_flags_keeps :
      (n : ℕ) (b : Bool) (k : ℕ) (d : D) → sockets (os.set_flags n b k d).1 ≡ sockets d
  pub connect_keeps : (n : ℕ) (a : A) (d : D) → sockets (os.connect_to n a d).1 ≡ sockets d
  pub select_keeps : (n : ℕ) (t : _) (d : D) → sockets (os.select_writable n t d).1 ≡ sockets d
  pub error_keeps : (n : ℕ) (d : D) → sockets (os.so_error n d).1 ≡ sockets d
  pub delay_keeps : (n : ℕ) (d : D) → sockets (os.set_no_delay n d) ≡ sockets d
  pub timeouts_keeps : (n : ℕ) (t : _) (d : D) → sockets (os.set_timeouts n t d) ≡ sockets d
  pub address_keeps : (h p : List ℕ) (d : D) → sockets (os.getaddrinfo h p d).1 ≡ sockets d

module _ {D A : Type 0} (os : Sockets D A) (sockets : D → List ℕ) (c : Counts os sockets) where
  -- Whatever is answered, the state is one of two.
  select_state :
      (answer : Selected) (code : Option ℕ) (x y d : D)
      → sockets x ≡ sockets d
      → sockets y ≡ sockets d
      → sockets
          (elim answer as (λ _. Bool × D) [
            | select_failed ↦ (false, x)
            | select_idle ↦ (false, x)
            | select_ready ↦ elim code as (λ _. Bool × D) [
              | none ↦ (false, y)
              | some n ↦ (n == 0, y)
            ]
          ]).1
        ≡ sockets d
  select_state select_failed code x y d h k = h
  select_state select_idle code x y d h k = h
  select_state select_ready none x y d h k = k
  select_state select_ready (some n) x y d h k = k

  await_keeps : (n ms : ℕ) (d : D) → sockets (await_connected os n ms d).1 ≡ sockets d
  unfolding await_connected
  await_keeps n ms d =
      let ready = os.select_writable n (make_timeval ms) d in
      let h = c.select_keeps n (make_timeval ms) d in
      select_state ready.0 (os.so_error n ready.1).0 ready.1 (os.so_error n ready.1).1 d h
        (c.error_keeps n ready.1 ∙ h)

  restore_keeps :
      (n flags : ℕ) (r : Bool × D) (d : D)
      → sockets r.1 ≡ sockets d
      → sockets (restore_flags os n flags r).1 ≡ sockets d
  restore_keeps n flags (false, x) d h = h
  restore_keeps n flags (true, x) d h = c.set_flags_keeps n false flags x ∙ h

  connect_keeps :
      (n : ℕ) (address : A) (ms : ℕ) (d : D)
      → sockets (connect_with_timeout os n address ms d).1 ≡ sockets d
  unfolding connect_with_timeout
  connect_keeps n address ms d =
      let got = os.get_flags n d in
      let hg = c.get_flags_keeps n d in
      elim (Option-cases got.0) [
        | inl e ↦ rw (connect_with_timeout, e) hg
        | inr (flags, e) ↦
            let set = os.set_flags n true flags got.1 in
            let hs = c.set_flags_keeps n true flags got.1 ∙ hg in
            let connected = os.connect_to n address set.1 in
            let hc = c.connect_keeps n address set.1 ∙ hs in
            elim (Bool-cases set.0) [
              | inr k ↦ rw (connect_with_timeout, e, k) hs
              | inl k ↦ elim (Bool-cases connected.0) [
                | inl t ↦
                    rw (connect_with_timeout, e, k, t)
                      (c.set_flags_keeps n false flags connected.1 ∙ hc)
                | inr t ↦ elim (Bool-cases (os.timed_out connected.1)) [
                  | inr z ↦ rw (connect_with_timeout, e, k, t, z) hc
                  | inl z ↦
                      rw (connect_with_timeout, e, k, t, z)
                        (restore_keeps n flags (await_connected os n ms connected.1) d
                          (await_keeps n ms connected.1 ∙ hc))
                ]
              ]
            ]
      ]

  -- What the loop over the addresses leaves open: the socket that it returns.
  abbrev pub left : Option ℕ → List ℕ → List ℕ
  left none before = before
  left (some descriptor) before = descriptor ∷ before

  connect_first_leaves :
      (addresses : List A) (ms : ℕ) (d : D)
      → sockets (connect_first os addresses ms d).1
        ≡ left (connect_first os addresses ms d).0 (sockets d)
  connect_first_leaves [] ms d = refl
  connect_first_leaves (address ∷ rest) ms d =
      let made = os.socket address d in
      elim (Option-cases made.0) [
        | inl e ↦
            rw (connect_first, e)
              (connect_first_leaves rest ms made.1 ∙ ap (left _) (c.makes_none address d e))
        | inr (descriptor, e) ↦
            let tried = connect_with_timeout os descriptor address ms made.1 in
            let one = connect_keeps descriptor address ms made.1 ∙ c.makes address d descriptor e in
            elim (Bool-cases tried.0) [
              | inl t ↦ rw (connect_first, e, t) one
              | inr t ↦
                  let closed = os.close_socket descriptor tried.1 in
                  rw (connect_first, e, t)
                    (connect_first_leaves rest ms closed
                      ∙ ap (left _) (c.closes descriptor (sockets d) tried.1 one))
            ]
      ]

  -- What is open behind an open, by its result.
  abbrev pub Leaves : List ℕ → Result (Tcp D) × D → Type 0
  Leaves before (ok t, d) =
      (descriptor : ℕ) × (t.descriptor ≡ some descriptor) × (sockets d ≡ descriptor ∷ before)
  Leaves before (err e, d) = sockets d ≡ before
  Leaves before (stuck, d) = sockets d ≡ before

  connected_as-Leaves :
      (endpoint : List ℕ) (timeout_ms budget_ms : ℕ) (r : Option ℕ × D) (before : List ℕ)
      → sockets r.1 ≡ left r.0 before
      → Leaves before (connected_as os endpoint timeout_ms budget_ms r)
  connected_as-Leaves endpoint timeout_ms budget_ms (none, d) before h = h
  connected_as-Leaves endpoint timeout_ms budget_ms (some descriptor, d) before h = (
    descriptor,
    refl,
    c.timeouts_keeps descriptor (make_timeval timeout_ms) (os.set_no_delay descriptor d)
        ∙ c.delay_keeps descriptor d
        ∙ h,
  )

  resolve-Leaves :
      (endpoint host port : List ℕ) (connect_ms timeout_ms budget_ms : ℕ) (d : D)
      → Leaves (sockets d) (
          (resolve os host port >>= λ addresses x.
          connected_as os endpoint timeout_ms budget_ms (connect_first os addresses connect_ms x))
            d)
  unfolding resolve
  resolve-Leaves endpoint host port connect_ms timeout_ms budget_ms d =
      resolved (os.getaddrinfo host port d) (c.address_keeps host port d)
    where
      resolved :
          (r : (List ℕ ⊎ List A) × D)
          → sockets r.1 ≡ sockets d
          → Leaves (sockets d) (
              ((λ (x : D). (
                elim r.0 [
                  | inl reason ↦ err (record {
                    code = transport;
                    message = "getaddrinfo";
                    detail = codes ": " ++ reason;
                  })
                  | inr addresses ↦ ok addresses
                ],
                r.1,
              ))
                  >>= λ addresses x.
                      connected_as os endpoint timeout_ms budget_ms
                        (connect_first os addresses connect_ms x))
                d)
      resolved (inl reason, x) h = h
      resolved (inr addresses, x) h =
          connected_as-Leaves endpoint timeout_ms budget_ms
            (connect_first os addresses connect_ms x) (sockets d)
            (connect_first_leaves addresses connect_ms x ∙ ap (left _) h)

  -- Where the calls of the system make and close sockets as `Counts` says: an open that works leaves the socket of the transport open that it returns, and no other of
  -- those that it made; an open that fails leaves none.
  pub open_endpoint-Leaves :
      (endpoint : List ℕ) (connect_ms timeout_ms budget_ms : ℕ) (d : D)
      → Leaves (sockets d) (open_endpoint os endpoint connect_ms timeout_ms budget_ms d)
  unfolding open_endpoint
  open_endpoint-Leaves endpoint connect_ms timeout_ms budget_ms d = parted (split_endpoint endpoint)
    where
      parted :
          (r : Result (List ℕ × List ℕ))
          → Leaves (sockets d) (
              continue r
                (λ parts. resolve os parts.0 parts.1 >>= λ addresses x.
                  connected_as os endpoint timeout_ms budget_ms
                    (connect_first os addresses connect_ms x))
                d)
      parted (ok (host, port)) = resolve-Leaves endpoint host port connect_ms timeout_ms budget_ms d
      parted (err e) = refl
      parted stuck = refl
