-- ===== src/Sync/Pulling.antt =====
-- `pull` of src/sync.cpp on a device that sends the file.
use adbcpp.Base.{
  ℕ, ◌≤◌, ◌<◌, ◌≡◌, refl, sym, ap, ◌∙◌, List, [], ◌∷◌, ◌++◌, arith, append-nil, true, All-weaken,
  Option, none, some, All, IsU32, length, length-append, not_lt→ltb,
}
use mathlib.Core.Path.{subst}
use adbcpp.Outcome.{Result, ok}
use adbcpp.Transport.{Link}
use adbcpp.Protocol.ByteOrder.{write_u32_le}
use adbcpp.Connection.{Connection, Build}
use adbcpp.Session.Sending.{flatten}
use adbcpp.Stream
use adbcpp.Stream.{Stream, Channel, open_stream, close_now}
use adbcpp.Stream.Steps.{linked}
use adbcpp.Stream.Opening.{numbered}
use adbcpp.Stream.Supply.{Supplies, length-tape}
use adbcpp.Stream.Writing.{write-Supplies}
use adbcpp.Stream.Serving.{Serves, open_stream-IsOpened}
use adbcpp.Sync.Wire.{
  recv_v1, recv_v2, write_recv_v2, done_id, max_path_length, max_chunk_size, sync_service,
  path_request, write_path_request,
}
use adbcpp.Sync.Push.{sync_header}
use adbcpp.Sync.Pull.{
  Sink, Transfer, Form, PullState, receive_file, open_output, plain_form, codec_form, transferred,
  pull_by, pull_v1, pull_v2, pull,
}
use adbcpp.Sync.Codec.{SyncCompression, CompressionCodec, Codecs, sync_flag_of, transfer_codec}
use adbcpp.Sync.Listing.{sync_rounds}
use adbcpp.Sync.Upload.{block, length-block}
use adbcpp.Sync.Replies.{quit-Supplies, four, length-path_request}
use adbcpp.Sync.Download.{blocks, Decodes, over, next, chunk_rounds}

-- A file as the device sends it, with its time at the end.
abbrev pub sent_file : List (List ℕ) → ℕ → List ℕ
sent_file chunks mtime = blocks chunks ++ sync_header done_id mtime

-- A file takes more bytes than it has blocks.
length-blocks : (chunks : List (List ℕ)) → length chunks ≤ length (blocks chunks)
length-blocks [] = omega arith
length-blocks (chunk ∷ chunks) =
    omega
      (arith, length-blocks chunks, length-append (block chunk) (blocks chunks), length-block chunk)

-- A local file that can be created and written.
abbrev pub writable : List ℕ → Sink
writable contents = record { opens = true; verdicts = []; contents = contents }

module _ {D : Type 0} (form : Form D) (c : Connection) (s : Stream) (limit : ℕ) where
  -- The whole of a transfer on an open stream.
  pub receive_file-Decodes :
      (request : List ℕ) (mtime : ℕ) (rest : List ℕ) (channel : Channel) (old : List ℕ)
      {chunks : List (List ℕ)} {d f : D} {out : List ℕ}
      → Decodes form chunks d out f
      → Supplies c s limit (blocks chunks ++ (sync_header done_id mtime ++ rest)) channel
      → All (λ chunk. IsU32 (length chunk)) chunks
      → length request ≤ c.peer_max_data
      → IsU32 (length request)
      → 8 ≤ c.peer_max_data
      → (after : Channel) × (receive_file form
            (Stream.write request)
            (record { channel = channel; sink = writable old; decoder = d })
          ≡ (ok tt, record { channel = after; sink = writable out; decoder = f }))
        × Supplies c s limit rest after
  unfolding receive_file open_output
  receive_file-Decodes request mtime rest channel old {chunks} {d} {f} {out} k u w m b q =
      let (a, ra, ua) =
        write-Supplies c s limit (blocks chunks ++ (sync_header done_id mtime ++ rest)) request
          channel u m b in
      let tail = sync_header done_id mtime ++ rest in
      let bytes = length-append (blocks chunks) tail in
      let some_rounds : length chunks < sync_rounds a =
        omega (arith, length-tape ua, bytes, length-blocks chunks) in
      let (e, re, ue) =
        chunk_rounds form c s limit (sync_rounds a) mtime rest a (writable []) k ua refl w
          some_rounds in
      let (z, rz, uz) = quit-Supplies c s limit rest e ue q in (z, rw (ra, re, rz), uz)

-- The scope of the stream, for a device that serves it.
transferred-runs :
    {D : Type 0} (body : Transfer D → Result (Unit {0}) × Transfer D) (d f : D) (k sink : Sink)
    (s : Stream) (connection : Connection) (after : Channel) (r : Result Stream × Connection)
    → r ≡ (ok s, connection)
    → body
        (record { channel = record { connection = connection; stream = s }; sink = k; decoder = d })
      ≡ (ok tt, record { channel = after; sink = sink; decoder = f })
    → transferred body d k r
      ≡ (ok tt, record { connection = (close_now after).connection; sink = sink })
transferred-runs body d f k sink s connection after r h g = rw (h, g)

-- The plain form takes a chunk as it is.
plain-Decodes :
    (chunks : List (List ℕ))
    → All (λ chunk. length chunk ≤ max_chunk_size) chunks
    → Decodes plain_form chunks tt (flatten chunks) tt
plain-Decodes [] h = over tt
plain-Decodes (chunk ∷ chunks) (h, hs) =
    next chunk chunks tt tt tt chunk (flatten chunks) refl h (plain-Decodes chunks hs)

-- The transfer in the scope of its stream.
transferred-sent_file :
    {D : Type 0} (form : Form D) (c : Connection) (l : Link) (request old : List ℕ) (mtime : ℕ)
    {chunks : List (List ℕ)} {d f : D} {out : List ℕ}
    → Decodes form chunks d out f
    → Serves c l sync_service (sent_file chunks mtime)
    → All (λ chunk. IsU32 (length chunk)) chunks
    → length request ≤ 1040
    → 1040 ≤ c.peer_max_data
    → (after : Connection) × (transferred
          (receive_file form (Stream.write request))
          d
          (writable old)
          (open_stream sync_service (linked c l))
        ≡ (ok tt, record { connection = after; sink = writable out }))
transferred-sent_file form c l request old mtime {chunks} {d} {f} {out} k v w p m =
    let o = open_stream-IsOpened c l sync_service (sent_file chunks mtime) v in
    let first : Channel = record { connection = o.connection; stream = o.stream } in
    let same : blocks chunks ++ (sync_header done_id mtime ++ []) ≡ sent_file chunks mtime =
      ap (λ t. blocks chunks ++ t) (append-nil (sync_header done_id mtime)) in
    let (after, r, u) =
      receive_file-Decodes form (numbered c) o.stream o.limit request mtime [] first old k
        (subst (λ t. Supplies (numbered c) o.stream o.limit t first) (sym same) o.supplies) w
        (omega arith) (omega arith) (omega arith) in
    (
      (close_now after).connection,
      transferred-runs (receive_file form (Stream.write request)) d f (writable old) (writable out)
          o.stream o.connection after (open_stream sync_service (linked c l)) o.runs r,
    )

-- A call of `pull` for a path that is not too long, by the choice of the codec.
pull-choice :
    (b : Build) (libraries : Codecs) (remote_path : List ℕ) (compression : SyncCompression)
    (s : PullState) (choice : Option CompressionCodec)
    → length remote_path ≤ max_path_length
    → transfer_codec b s.connection compression ≡ ok choice
    → pull b libraries remote_path compression s ≡ pull_by b libraries remote_path (ok choice) s
unfolding pull
pull-choice b libraries remote_path compression s choice h e =
    rw (not_lt→ltb max_path_length (length remote_path) h, e)

-- Where a device accepts the stream, and sends a file, and the peer takes requests of 1040 bytes, a
-- pull without compression ends well. The local file then has the contents of the chunks in order,
-- whatever it had before and in whatever WRTEs the bytes came, if no chunk is longer than 64 KiB.
pub pull-sent_file :
    (b : Build) (libraries : Codecs) (c : Connection) (l : Link) (remote_path old : List ℕ)
    (compression : SyncCompression) (chunks : List (List ℕ)) (mtime : ℕ)
    → transfer_codec b (linked c l) compression ≡ ok none
    → Serves c l sync_service (sent_file chunks mtime)
    → All (λ chunk. length chunk ≤ max_chunk_size) chunks
    → length remote_path ≤ max_path_length
    → 1040 ≤ c.peer_max_data
    → (after : Connection) × (pull b libraries remote_path compression
          (record { connection = linked c l; sink = writable old })
        ≡ (ok tt, record { connection = after; sink = writable (flatten chunks) }))
unfolding pull_v1 write_path_request
pull-sent_file b libraries c l remote_path old compression chunks mtime n v h p m =
    let (after, r) =
      transferred-sent_file plain_form c l (path_request recv_v1 remote_path) old mtime
        (plain-Decodes chunks h) v
        (All-weaken (λ chunk. length chunk ≤ max_chunk_size) (λ chunk. IsU32 (length chunk)) chunks
          (λ chunk small. omega arith) h)
        (omega (arith, length-path_request recv_v1 remote_path)) m in
    (
      after,
      pull-choice b libraries remote_path compression
            (record { connection = linked c l; sink = writable old }) none p n
          ∙ r,
    )

-- The same with a codec: the local file has what the decoder makes of the chunks, each at most as
-- long as the bound of the codecs.
pub pull-decoded :
    (b : Build) (libraries : Codecs) (c : Connection) (l : Link) (remote_path old : List ℕ)
    (compression : SyncCompression) (codec : CompressionCodec) (mtime : ℕ) {chunks : List (List ℕ)}
    {out : List ℕ} {f : libraries.Decoder}
    → transfer_codec b (linked c l) compression ≡ ok (some codec)
    → Decodes (codec_form b libraries codec) chunks (libraries.decoder codec) out f
    → Serves c l sync_service (sent_file chunks mtime)
    → All (λ chunk. IsU32 (length chunk)) chunks
    → length remote_path ≤ max_path_length
    → 1040 ≤ c.peer_max_data
    → (after : Connection) × (pull b libraries remote_path compression
          (record { connection = linked c l; sink = writable old })
        ≡ (ok tt, record { connection = after; sink = writable out }))
unfolding pull_v2 write_recv_v2
pull-decoded b libraries c l remote_path old compression codec mtime {chunks} {out} {f} n k v w p
      m =
    let setup = write_u32_le recv_v2 ++ write_u32_le (sync_flag_of codec) in
    let (after, r) =
      transferred-sent_file (codec_form b libraries codec) c l
        (path_request recv_v2 remote_path ++ setup) old mtime k v w
        (omega (
          arith,
          length-append (path_request recv_v2 remote_path) setup,
          length-append (write_u32_le recv_v2) (write_u32_le (sync_flag_of codec)),
          length-path_request recv_v2 remote_path,
          four recv_v2,
          four (sync_flag_of codec),
        ))
        m in
    (
      after,
      pull-choice b libraries remote_path compression
            (record { connection = linked c l; sink = writable old }) (some codec) p n
          ∙ r,
    )
