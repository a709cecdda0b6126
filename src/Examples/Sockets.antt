-- ===== src/Examples/Sockets.antt =====
-- The TCP transport, waiting, retrying and decoding at concrete inputs.
use adbcpp.Base.{
  ℕ, suc, sym, append-nil, drop-append, ◌&&◌, ◌∙◌, ◌≡◌, refl, Bool, true, false, leb, List, [], ◌∷◌,
  ◌++◌, Option, none, some, inr, length, take, drop, ap, ◌==◌, min, arith, codes,
}
use mathlib.Core.Path.{subst}
use adbcpp.Outcome.{Result, ok, err, error, transport}
use mathlib.Core.Option.{some-injective}
use adbcpp.Tcp.Opening.{open_endpoint}
use adbcpp.Tcp.Leaving
use adbcpp.Tcp.Leaving.{open_endpoint-Leaves}
use adbcpp.Tcp.Endpoint.{split_endpoint, bracketed, split_endpoint-IsEndpoint}
use adbcpp.Tcp.Channel.{select_ready, Sockets, Tcp, write}
use adbcpp.Tcp.Sending.{Delivered, Accounts, write-Delivered}
use adbcpp.Waiting.Polling.{IsClock, Waits, wait_readable, wait_readable-Waits}
use adbcpp.Waiting.Retry.{connect_with_retry, Paces, connect_with_retry-Paces}
use adbcpp.Compression.{Step, stepped}
use adbcpp.Compression.Libraries.{
  Libraries, Run, done, more, IsLibrary, codecs_of, codecs_of-IsLossless,
}
use adbcpp.Sync.Codec.{CompressionCodec}
use adbcpp.Sync.Upload.{IsChunk}
use adbcpp.Sync.RoundTrip.{IsLossless}

-- `[::1]:5555`
split_endpoint-IsEndpoint_example :
    split_endpoint ((91 ∷ (58 ∷ 58 ∷ 49 ∷ []) ++ 93 ∷ []) ++ 58 ∷ 53 ∷ 53 ∷ [])
    ≡ ok (58 ∷ 58 ∷ 49 ∷ [], 53 ∷ 53 ∷ [])
split_endpoint-IsEndpoint_example =
    split_endpoint-IsEndpoint (58 ∷ 58 ∷ 49 ∷ []) (53 ∷ 53 ∷ []) _
      (bracketed (58 ∷ 58 ∷ 49 ∷ []) (53 ∷ 53 ∷ []))
      ((λ (e : 53 ≡ 58). omega arith), ((λ (e : 53 ≡ 58). omega arith), tt)) (λ e. cc) (λ e. cc)

-- A socket that takes two bytes at a time, and remembers them.
abbrev Wire : Type 0
Wire = List ℕ

abbrev toy_sockets : Sockets Wire ℕ
toy_sockets = record {
  recv = λ descriptor n d. (some [], d);
  send =
      λ descriptor bytes d. (some (min 2 (length bytes)), d ++ take (min 2 (length bytes)) bytes);
  select_readable = λ descriptor timeval d. (select_ready, d);
  select_writable = λ descriptor timeval d. (select_ready, d);
  timed_out = λ d. false;
  last_socket_error = λ d. [];
  now = λ d. 0;
  close_socket = λ descriptor d. d;
  getaddrinfo = λ host port d. (inr (1 ∷ []), d);
  socket = λ address d. (some 3, d);
  get_flags = λ descriptor d. (some 0, d);
  set_flags = λ descriptor nonblocking flags d. (true, d);
  connect_to = λ descriptor address d. (true, d);
  so_error = λ descriptor d. (some 0, d);
  set_no_delay = λ descriptor d. d;
  set_timeouts = λ descriptor timeval d. d;
}

toy_sockets-Accounts :
    (descriptor : Option ℕ) (bytes : List ℕ) (d : Wire)
    → Accounts toy_sockets (λ (x : Wire). x) bytes d (toy_sockets.send descriptor bytes d)
toy_sockets-Accounts descriptor bytes d = (omega arith, refl, omega arith)

abbrev connected_tcp : Tcp Wire
connected_tcp = record {
  net = [];
  descriptor = some 3;
  endpoint = codes "host:5555";
  transfer_timeout_ms = 5;
  transfer_budget_ms = 10;
}

write-Delivered_example :
    Delivered toy_sockets
      (λ (x : Wire). x)
      (1 ∷ 2 ∷ 3 ∷ [])
      []
      (
        (write toy_sockets (1 ∷ 2 ∷ 3 ∷ []) connected_tcp).0,
        (write toy_sockets (1 ∷ 2 ∷ 3 ∷ []) connected_tcp).1.net,
      )
write-Delivered_example =
    write-Delivered toy_sockets (λ (x : Wire). x) toy_sockets-Accounts (1 ∷ 2 ∷ 3 ∷ [])
      connected_tcp

-- Transports that are readable from a time on; a question takes no time.
abbrev ready_from : ℕ → ℕ → Result Bool × ℕ
ready_from t d = (ok (leb t d), d)

ready_from-IsClock : IsClock ready_from (λ (d : ℕ). d) suc
ready_from-IsClock = record {
  asks = λ t d. omega arith;
  answers = λ t d h. cc;
  sleeps = λ d. omega arith;
}

wait_readable-Waits_example :
    Waits ready_from
      (λ (d : ℕ). d)
      suc
      (9 ∷ 2 ∷ [])
      5
      0
      (wait_readable ready_from (λ (d : ℕ). d) suc (9 ∷ 2 ∷ []) 5 0)
wait_readable-Waits_example =
    wait_readable-Waits ready_from (λ (d : ℕ). d) suc ready_from-IsClock (9 ∷ 2 ∷ []) 5 0

-- A device that cannot be opened; the state is the pauses and the number of the opens.
abbrev Patience : Type 0
Patience = List ℕ × ℕ

abbrev unplugged : Patience → Result ℕ × Patience
unplugged (pauses, opens) =
    (err (error transport "no USB device matching the given id"), (pauses, suc opens))

abbrev join_as : ℕ → Patience → Result ℕ × Patience
join_as t d = (ok t, d)

abbrev pause : ℕ → Patience → Patience
pause ms (pauses, opens) = (pauses ++ ms ∷ [], opens)

connect_with_retry-Paces_example :
    Paces unplugged join_as pause
      (λ (d : Patience). d.0)
      (λ (d : Patience). d.1)
      250
      5
      0
      ([], 0)
      (connect_with_retry unplugged join_as pause 5 250 none ([], 0))
connect_with_retry-Paces_example =
    connect_with_retry-Paces unplugged join_as pause (λ (d : Patience). d.0) (λ (d : Patience). d.1)
      (record {
        sleeps = λ ms d. refl;
        sleep_keeps = λ ms d. refl;
        opens = λ d. refl;
        open_keeps = λ d. refl;
        connects = λ t d. refl;
        connect_keeps = λ t d. refl;
      })
      5 250 none ([], 0)

-- A codec that copies, a byte at a time.
abbrev copy_step : ℕ → List ℕ → Unit {0} → Step × Unit {0}
copy_step size [] z = (stepped 0 [], z)
copy_step size (b ∷ input) z = (stepped 1 (b ∷ []), z)

abbrev copy_out : Unit {0} → List ℕ → List ℕ
copy_out z input = input

abbrev copy_room : Unit {0} → List ℕ → ℕ
copy_room z input = length input

-- A library that takes a frame at once, and whose frames are the chunks themselves.
abbrev whole_step : ℕ → List ℕ → Unit {0} → Step × Unit {0}
whole_step size input z = (stepped (length input) input, z)

abbrev plain_library : Libraries
plain_library = record {
  Z = Unit {0};
  step = λ codec. whole_step;
  context = λ codec. some tt;
  bound = λ codec n. n;
  default_bound = λ codec n. n;
  compress = λ codec size bytes. inr bytes;
}

whole_step-runs :
    (chunk : List ℕ) (z : Unit {0}) → IsChunk chunk → Run whole_step 1 chunk z chunk tt
whole_step-runs [] z h = absurd (omega (arith, h.0))
whole_step-runs (b ∷ bs) z h =
    let n = length (b ∷ bs) in
    let e : (n == 0) ≡ false = ground arith in
    let d = sym (drop-append n (b ∷ bs) [] refl) ∙ ap (drop n) (append-nil (b ∷ bs)) in
    subst (λ t. Run whole_step 1 (b ∷ bs) z t tt) (append-nil (b ∷ bs))
      (more 0 b n bs (b ∷ bs) [] z tt tt refl (ap (λ t. t && false) e)
        (subst (λ t. Run whole_step 0 t tt [] tt) d (done 0 tt)))

plain_library-IsLibrary : IsLibrary plain_library CompressionCodec.lz4 1
plain_library-IsLibrary = record {
  IsBetween = λ z. z ≡ z;
  start = tt;
  has_context = refl;
  starts = refl;
  frame = λ chunk z h r. (chunk, tt, (λ size w. refl), whole_step-runs chunk z h, h.1, refl);
}

codecs_of-IsLossless_example : IsLossless (codecs_of plain_library 2) CompressionCodec.lz4
codecs_of-IsLossless_example =
    codecs_of-IsLossless plain_library CompressionCodec.lz4 1 2 plain_library-IsLibrary
      (omega arith)

-- A host with two addresses, of which the first does not answer. The state is the open sockets.
abbrev counted_sockets : Sockets (List ℕ) ℕ
counted_sockets = record toy_sockets {
  getaddrinfo = λ host port d. (inr (1 ∷ 2 ∷ []), d);
  socket = λ address d. (some address, address ∷ d);
  close_socket = λ descriptor d. drop 1 d;
  connect_to = λ descriptor address d. (address == 2, d);
}

counted_sockets-Counts : Leaving.Counts counted_sockets (λ (d : List ℕ). d)
counted_sockets-Counts = record {
  makes = λ address d descriptor e. ap (λ n. n ∷ d) (some-injective address descriptor e);
  makes_none = λ address d e. absurd (cc);
  closes = λ descriptor rest d e. ap (drop 1) e;
  get_flags_keeps = λ n d. refl;
  set_flags_keeps = λ n b k d. refl;
  connect_keeps = λ n a d. refl;
  select_keeps = λ n t d. refl;
  error_keeps = λ n d. refl;
  delay_keeps = λ n d. refl;
  timeouts_keeps = λ n t d. refl;
  address_keeps = λ h p d. refl;
}

open_endpoint-Leaves_example :
    Leaving.Leaves counted_sockets
      (λ (d : List ℕ). d)
      counted_sockets-Counts
      (9 ∷ [])
      (open_endpoint counted_sockets (codes "host:5555") 1 5 10 (9 ∷ []))
open_endpoint-Leaves_example =
    open_endpoint-Leaves counted_sockets (λ (d : List ℕ). d) counted_sockets-Counts
      (codes "host:5555") 1 5 10 (9 ∷ [])
