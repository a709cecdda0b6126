-- ===== src/Sync/RoundTrip.antt =====
-- A file that `push` of src/sync.cpp sends is the file that `pull` gets back.
use adbcpp.Base.{
  ℕ, zero, suc, ◌+◌, ◌≤◌, ◌≡◌, refl, sym, ap, ◌∙◌, List, [], ◌∷◌, append_assoc, append-nil, arith,
  some, All, IsU32, length, true,
}
use mathlib.Core.Path.{subst}
use adbcpp.Outcome.{Result, ok}
use adbcpp.Transport.{Link}
use adbcpp.Session.Sending.{sending, transfers}
use adbcpp.Connection.{Connection, Build}
use adbcpp.Stream.{Stream, Channel}
use adbcpp.Stream.Writing.{wrte_frame}
use adbcpp.Stream.Steps.{chan, linked}
use adbcpp.Stream.Serving.{Serves}
use adbcpp.Sync.Wire.{max_path_length, max_chunk_size, sync_service}
use adbcpp.Sync.Codec.{
  SyncCompression, CompressionCodec, Codecs, is_built, compress_chunk, chunk_decode,
  max_compressed_chunk_size, transfer_codec,
}
use adbcpp.Sync.Push.{send_chunks, next_chunk, unread}
use adbcpp.Sync.Pull.{Form, codec_form, pull}
use adbcpp.Sync.Upload.{
  block, block_transfers, IsChunk, next_chunk-unread, next_chunk-IsChunk, length-unread, send_round,
}
use adbcpp.Sync.Download.{Decodes, over, next}
use adbcpp.Sync.Pulling.{sent_file, writable, pull-decoded}

-- What a form makes of the frame of a chunk: a frame within the limit, which it decodes to the chunk.
pub record Inverts {D : Type 0} (compress : List ℕ → Result (List ℕ)) (form : Form D)
    (IsReady : D → Type 0) (chunk : List ℕ) (d : D) : Type 0 where
  pub bytes : List ℕ
  pub after : D
  pub compresses : compress chunk ≡ ok bytes
  pub decodes : form.decode_chunk bytes d ≡ (ok chunk, after)
  pub within : length bytes ≤ form.limit
  pub ready : IsReady after

-- The chunks of the contents as the form sends them.
abbrev pub or_none : Result (List ℕ) → List (List ℕ) → List (List ℕ)
or_none (ok bytes) rest = bytes ∷ rest
or_none _ rest = []

unfoldable pub encoded : (List ℕ → Result (List ℕ)) → ℕ → List ℕ → List (List ℕ)
encoded compress zero contents = []
encoded compress (suc fuel) [] = []
encoded compress (suc fuel) (b ∷ bs) =
    or_none (compress (next_chunk (b ∷ bs))) (encoded compress fuel (unread (b ∷ bs)))

-- How the contents were sent, and what the device can send back of them.
pub record Stores {D : Type 0} (form : Form D) (c : Connection) (l : Link) (s : Stream)
    (contents : List ℕ) (expected : List (List ℕ)) (d : D) (outcome : Result (Unit {0}) × Channel)
    : Type 0 where
  pub chunks : List (List ℕ)
  pub last : D
  pub same : chunks ≡ expected
  pub runs : outcome ≡ (ok tt, chan c (sending l (block_transfers s chunks)) s)
  pub decodes : Decodes form chunks d contents last
  pub sized : All (λ chunk. IsU32 (length chunk)) chunks

module _ {D : Type 0} (compress : List ℕ → Result (List ℕ)) (form : Form D) (IsReady : D → Type 0)
    (inverts : (chunk : List ℕ) (d : D)
      → IsChunk chunk
      → IsReady d
      → Inverts compress form IsReady chunk d)
    (c : Connection) (s : Stream) (h : 8 + form.limit ≤ c.peer_max_data)
    (u : IsU32 (8 + form.limit)) where
  Stores-nothing :
      (fuel : ℕ) (l : Link) (d : D)
      → Stores form c l s []
          (encoded compress fuel [])
          d
          (send_chunks compress fuel [] (chan c l s))
  unfolding send_chunks encoded
  Stores-nothing zero l d = record {
    chunks = [];
    last = d;
    same = refl;
    runs = ap (λ t. (ok tt, chan c (record l { written = t }) s)) (sym (append-nil l.written));
    decodes = over d;
    sized = tt;
  }
  Stores-nothing (suc fuel) l d = record {
    chunks = [];
    last = d;
    same = refl;
    runs = ap (λ t. (ok tt, chan c (record l { written = t }) s)) (sym (append-nil l.written));
    decodes = over d;
    sized = tt;
  }

  send_chunks-Stores :
      (fuel : ℕ) (l : Link) (contents : List ℕ) (d : D)
      → l.verdicts ≡ []
      → length contents ≤ fuel
      → IsReady d
      → Stores form c l s contents
          (encoded compress fuel contents)
          d
          (send_chunks compress fuel contents (chan c l s))
  send_chunks-Stores fuel l [] d v f r = Stores-nothing fuel l d
  send_chunks-Stores zero l (b ∷ bs) d v f r = absurd (omega arith)
  send_chunks-Stores (suc fuel) l (b ∷ bs) d v f r =
      let i = inverts (next_chunk (b ∷ bs)) d (next_chunk-IsChunk b bs) r in
      let more : Link = sending l (transfers (wrte_frame s (block i.bytes))) in
      let rest =
        send_chunks-Stores fuel more (unread (b ∷ bs)) i.after v (omega (arith, length-unread b bs))
          i.ready in
      record {
        chunks = i.bytes ∷ rest.chunks;
        last = rest.last;
        same = ap (◌∷◌ i.bytes) rest.same ∙ unfold encoded in rw i.compresses refl;
        runs =
            send_round compress fuel c l s b bs i.bytes v i.compresses (omega (arith, i.within))
              (omega (arith, i.within))
            ∙ rest.runs
            ∙ ap (λ t. (ok tt, chan c (record l { written = t }) s))
                (append_assoc l.written (transfers (wrte_frame s (block i.bytes)))
                  (block_transfers s rest.chunks));
        decodes =
            subst (λ t. Decodes form (i.bytes ∷ rest.chunks) d t rest.last)
              (next_chunk-unread (b ∷ bs))
              (next i.bytes rest.chunks d i.after rest.last (next_chunk (b ∷ bs)) (unread (b ∷ bs))
                i.decodes i.within rest.decodes);
        sized = (omega (arith, i.within), rest.sized);
      }

-- What the documentation of zstd and of lz4 promises: the frame of a chunk is no longer than the
-- bound for the largest chunk, and a decoder that is between two frames decodes it to the chunk and
-- is between two frames again. A brotli decoder reads one stream only.
pub record IsLossless (libraries : Codecs) (codec : CompressionCodec) : Type 1 where
  pub IsBetween : libraries.Decoder → Type 0
  pub starts : IsBetween (libraries.decoder codec)
  pub frame :
      (chunk : List ℕ) (d : libraries.Decoder)
      → IsChunk chunk
      → IsBetween d
      → (bytes : List ℕ) × (after : libraries.Decoder) × (libraries.compress codec chunk ≡ ok bytes)
        × (libraries.decode_frame codec bytes d ≡ (ok chunk, after))
        × (length bytes ≤ libraries.bound codec max_chunk_size)
        × IsBetween after

abbrev codec_limit : Build → Codecs → ℕ
codec_limit b libraries = max_compressed_chunk_size b libraries max_chunk_size

bound-codec_limit :
    (b : Build) (libraries : Codecs) (codec : CompressionCodec)
    → is_built b codec ≡ true
    → libraries.bound codec max_chunk_size ≤ codec_limit b libraries
unfolding max_compressed_chunk_size
bound-codec_limit b libraries CompressionCodec.zstd e = rw e (omega arith)
bound-codec_limit b libraries CompressionCodec.lz4 e = rw e (omega arith)
bound-codec_limit b libraries CompressionCodec.brotli e = rw e (omega arith)

codec-Inverts :
    (b : Build) (libraries : Codecs) (codec : CompressionCodec) (law : IsLossless libraries codec)
    → is_built b codec ≡ true
    → (chunk : List ℕ) (d : libraries.Decoder) → IsChunk chunk
    → law.IsBetween d
    → Inverts
        (compress_chunk b libraries codec)
        (codec_form b libraries codec)
        law.IsBetween
        chunk
        d
unfolding compress_chunk chunk_decode
codec-Inverts b libraries codec law e chunk d h r =
    let (bytes, after, k, g, w, z) = law.frame chunk d h r in
    record {
      bytes = bytes;
      after = after;
      compresses = rw (e, k);
      decodes = rw (e, g);
      within = omega (arith, w, bound-codec_limit b libraries codec e);
      ready = z;
    }

-- With a codec that is built in and whose library keeps its promises, to a peer that accepts blocks
-- of the codecs' bound: the loop of a push sends the whole file and works; and where a device later
-- sends the same chunks back, whatever the time and whatever WRTEs they come in, a pull that
-- chooses that codec, for a path that is not too long and into a local file that can be written,
-- ends well, and its local file has the contents that were pushed.
pub pull-send_chunks :
    (b : Build) (libraries : Codecs) (codec : CompressionCodec) (c : Connection) (l : Link)
    (s : Stream) (contents : List ℕ) (c' : Connection) (l' : Link) (remote_path old : List ℕ)
    (compression : SyncCompression) (mtime : ℕ)
    → IsLossless libraries codec
    → is_built b codec ≡ true
    → l.verdicts ≡ []
    → 8 + codec_limit b libraries ≤ c.peer_max_data
    → IsU32 c.peer_max_data
    → transfer_codec b (linked c' l') compression ≡ ok (some codec)
    → Serves c' l' sync_service
        (sent_file (encoded (compress_chunk b libraries codec) (length contents) contents) mtime)
    → length remote_path ≤ max_path_length
    → 1040 ≤ c'.peer_max_data
    → (send_chunks (compress_chunk b libraries codec) (length contents) contents (chan c l s) ≡ (
      ok tt,
      chan c
          (sending l (
            block_transfers s
              (encoded (compress_chunk b libraries codec) (length contents) contents)))
          s,
    ))
      × (after : Connection) × (pull b libraries remote_path compression
            (record { connection = linked c' l'; sink = writable old })
          ≡ (ok tt, record { connection = after; sink = writable contents }))
pull-send_chunks b libraries codec c l s contents c' l' remote_path old compression mtime law e v m
      w t d p q =
    let form = codec_form b libraries codec in
    let k =
      send_chunks-Stores (compress_chunk b libraries codec) form law.IsBetween
        (codec-Inverts b libraries codec law e) c s m (omega (arith, m, w)) (length contents) l
        contents (libraries.decoder codec) v (omega arith) law.starts in
    let (after, r) =
      pull-decoded b libraries c' l' remote_path old compression codec mtime t k.decodes
        (subst (λ x. Serves c' l' sync_service (sent_file x mtime)) (sym k.same) d) k.sized p q in
    (k.runs ∙ ap (λ x. (ok tt, chan c (sending l (block_transfers s x)) s)) k.same, after, r)
