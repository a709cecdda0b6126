-- ===== src/Sync/Pull.antt =====
-- `pull` and `pull_v2` of src/sync.cpp: a file of the device into a local file.
use adbcpp.Base.{
  ℕ, zero, suc, List, [], ◌∷◌, ◌++◌, String, Bool, true, false, not, ltb, ◌==◌, if◌then◌else◌,
  Option, none, some, length,
}
use adbcpp.Outcome.{Result, Status, ok, err, stuck, error, invalid_argument, protocol, io}
use adbcpp.Outcome.Exec.{Exec, pure, fail, ◌>>=◌, ◌>>◌}
use adbcpp.Protocol.ByteOrder.{read_u32_le}
use adbcpp.Connection.{Connection, Build}
use adbcpp.Stream
use adbcpp.Stream.{Stream, Channel, open_stream, close_now}
use adbcpp.Sync.Wire.{
  recv_v1, done_id, data_id, fail_id, max_path_length, max_chunk_size, sync_service,
  write_path_request, write_recv_v2, write_quit, sync_fail,
}
use adbcpp.Sync.Codec.{
  SyncCompression, CompressionCodec, Codecs, sync_flag_of, chunk_decode, max_compressed_chunk_size,
  transfer_codec,
}
use adbcpp.Sync.Listing.{sync_rounds}

-- The local file that is written: whether it can be created, whether each write to it succeeds in
-- turn (all do once the list is over), and what was written.
pub record Sink : Type 0 where
  pub opens : Bool
  pub verdicts : List Bool
  pub contents : List ℕ

-- The objects of a transfer.
pub record Transfer (D : Type 0) : Type 0 where
  pub channel : Channel
  pub sink : Sink
  pub decoder : D

-- What differs between the forms of a transfer: the largest chunk, the error for a larger one and
-- the way from a chunk to bytes of the file.
pub record Form (D : Type 0) : Type 0 where
  pub limit : ℕ
  pub too_large : String
  pub decode_chunk : List ℕ → D → Result (List ℕ) × D

abbrev pub on_channel : {D A : Type 0} → Exec Channel A → Exec (Transfer D) A
on_channel m t = ((m t.channel).0, record t { channel = (m t.channel).1 })

abbrev pub on_decoder : {D A : Type 0} → (D → Result A × D) → Exec (Transfer D) A
on_decoder m t = ((m t.decoder).0, record t { decoder = (m t.decoder).1 })

-- The constructor of `std::ofstream`, which empties the file.
unfoldable pub open_output : {D : Type 0} → Exec (Transfer D) Unit
open_output t =
    if t.sink.opens
    then (ok tt, record t { sink = record t.sink { contents = [] } })
    else (err (error io "cannot open the local file for writing"), t)

abbrev pub append_output : {D : Type 0} → List Bool → List ℕ → Exec (Transfer D) Unit
append_output [] bytes t =
    (ok tt, record t { sink = record t.sink { contents = t.sink.contents ++ bytes } })
append_output (true ∷ later) bytes t = (
  ok tt,
  record t { sink = record t.sink { verdicts = later; contents = t.sink.contents ++ bytes } },
)
append_output (false ∷ later) bytes t = (
  err (error io "failed to write the local file"),
  record t { sink = record t.sink { verdicts = later } },
)

unfoldable pub write_output : {D : Type 0} → List ℕ → Exec (Transfer D) Unit
write_output bytes t = append_output t.sink.verdicts bytes t

-- The loop over the chunks; each round takes eight bytes of the stream or more.
unfoldable pub receive_chunks : {D : Type 0} → Form D → ℕ → Exec (Transfer D) Unit
receive_chunks form zero t = (stuck, t)
receive_chunks form (suc fuel) t =
    (do
      id_bytes ← on_channel (Stream.read 4)
      let id = read_u32_le id_bytes
      if id == fail_id then on_channel sync_fail else do
        size_bytes ← on_channel (Stream.read 4)
        let size = read_u32_le size_bytes
        if id == done_id
            then pure tt
            else if not (id == data_id)
            then fail (error protocol "unexpected sync response")
            else if ltb form.limit size
            then fail (error protocol form.too_large)
            else do
              chunk ← on_channel (Stream.read size)
              decoded ← on_decoder (form.decode_chunk chunk)
              write_output decoded
              receive_chunks form fuel)
      t

-- The request, the file and the loop.
unfoldable pub receive_file : {D : Type 0} → Form D → Exec Channel Unit → Exec (Transfer D) Unit
receive_file form request = do
  on_channel request
  open_output
  λ t. receive_chunks form (sync_rounds t.channel) t
  on_channel write_quit

-- The connection and the local file of a call.
pub record PullState : Type 0 where
  pub connection : Connection
  pub sink : Sink

-- The scope of the stream and of the decoder, which are destroyed at the end.
abbrev pub transferred :
    {D : Type 0}
    → Exec (Transfer D) Unit
    → D
    → Sink
    → Result Stream × Connection
    → Status × PullState
transferred body decoder sink (ok s, c) =
    let (r, t) = body (record {
      channel = record { connection = c; stream = s };
      sink = sink;
      decoder = decoder;
    }) in
    (r, record { connection = (close_now t.channel).connection; sink = t.sink })
transferred body decoder sink (err e, c) = (err e, record { connection = c; sink = sink })
transferred body decoder sink (stuck, c) = (stuck, record { connection = c; sink = sink })

abbrev pub plain_form : Form (Unit {0})
plain_form = record {
  limit = max_chunk_size;
  too_large = "the sync chunk is larger than 64 KiB";
  decode_chunk = λ chunk u. (ok chunk, u);
}

unfoldable pub pull_v1 : List ℕ → Exec PullState Unit
pull_v1 remote_path s =
    transferred (receive_file plain_form (write_path_request recv_v1 remote_path)) tt s.sink
      (open_stream sync_service s.connection)

abbrev pub codec_form : Build → (libraries : Codecs) → CompressionCodec → Form libraries.Decoder
codec_form b libraries codec = record {
  limit = max_compressed_chunk_size b libraries max_chunk_size;
  too_large = "the sync chunk is larger than the compression bound";
  decode_chunk = chunk_decode b libraries codec;
}

unfoldable pub pull_v2 : Build → Codecs → CompressionCodec → List ℕ → Exec PullState Unit
pull_v2 b libraries codec remote_path s =
    transferred
      (receive_file (codec_form b libraries codec) (write_recv_v2 remote_path (sync_flag_of codec)))
      (libraries.decoder codec) s.sink (open_stream sync_service s.connection)

-- The form that the choice of a codec selects.
abbrev pub pull_by :
    Build → Codecs → List ℕ → Result (Option CompressionCodec) → Exec PullState Unit
pull_by b libraries remote_path (ok none) s = pull_v1 remote_path s
pull_by b libraries remote_path (ok (some codec)) s = pull_v2 b libraries codec remote_path s
pull_by b libraries remote_path (err e) s = (err e, s)
pull_by b libraries remote_path stuck s = (stuck, s)

unfoldable pub pull : Build → Codecs → List ℕ → SyncCompression → Exec PullState Unit
pull b libraries remote_path compression s =
    if ltb max_path_length (length remote_path)
    then (err (error invalid_argument "the path is longer than the sync limit of 1024 bytes"), s)
    else pull_by b libraries remote_path (transfer_codec b s.connection compression) s
