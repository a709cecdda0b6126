-- ===== src/Compression/Libraries.antt =====
-- The codecs of src/sync.cpp, `compress_chunk` and `ChunkDecoder`, over those of src/compression.cpp.
use adbcpp.Base.{
  ℕ, zero, suc, ◌+◌, ◌<◌, ◌≤◌, ◌≡◌, refl, sym, ap, ◌∙◌, false, ◌&&◌, ◌==◌, List, [], ◌∷◌, ◌++◌,
  Option, none, some, ◌⊎◌, inl, inr, String, length, drop, is_empty, arith, append_assoc,
  append-nil, Bool-cases, ==_iff, ◌/◌,
}
use adbcpp.Outcome.{Result, ok}
use adbcpp.Compression.{
  max_chunk_size, Step, stepped, stream_loop, zstd_loop, zstd_decode, lz4_decode, brotli_decode,
  compress_zstd, compress_lz4, compress_brotli,
}
use adbcpp.Sync.Codec.{CompressionCodec, Codecs}
use adbcpp.Sync.Upload.{IsChunk}
use adbcpp.Sync.RoundTrip.{IsLossless}

-- The libraries: the steps of a decoder, its context, the bound of a frame with the preferences of
-- the compression and with none, which differ for lz4, and the compression into
-- a buffer, with the name of its error or the bytes.
pub record Libraries : Type 1 where
  pub Z : Type 0
  pub step : CompressionCodec → ℕ → List ℕ → Z → Step × Z
  pub context : CompressionCodec → Option Z
  pub bound : CompressionCodec → ℕ → ℕ
  pub default_bound : CompressionCodec → ℕ → ℕ
  pub compress : CompressionCodec → ℕ → List ℕ → List ℕ ⊎ List ℕ

abbrev pub unnamed : List ℕ ⊎ List ℕ → Option (List ℕ)
unnamed (inl name) = none
unnamed (inr bytes) = some bytes

abbrev pub compress_by : Libraries → CompressionCodec → List ℕ → Result (List ℕ)
compress_by l CompressionCodec.zstd input =
    compress_zstd (l.bound CompressionCodec.zstd) (l.compress CompressionCodec.zstd) input
compress_by l CompressionCodec.lz4 input =
    compress_lz4 (l.bound CompressionCodec.lz4) (l.compress CompressionCodec.lz4) input
compress_by l CompressionCodec.brotli input =
    compress_brotli (l.bound CompressionCodec.brotli)
      (λ size bytes. unnamed (l.compress CompressionCodec.brotli size bytes)) input

abbrev pub decode_by :
    (l : Libraries) (fuel : ℕ)
    → CompressionCodec
    → List ℕ
    → Option l.Z
    → Result (List ℕ) × Option l.Z
decode_by l fuel CompressionCodec.zstd input d =
    zstd_decode (l.step CompressionCodec.zstd) fuel input d
decode_by l fuel CompressionCodec.lz4 input d =
    lz4_decode (l.step CompressionCodec.lz4) fuel input d
decode_by l fuel CompressionCodec.brotli input d =
    brotli_decode (l.step CompressionCodec.brotli) fuel input d

abbrev pub codecs_of : Libraries → ℕ → Codecs
codecs_of l fuel = record {
  Decoder = Option l.Z;
  decoder = l.context;
  decode_frame = decode_by l fuel;
  compress = compress_by l;
  bound = l.default_bound;
}

-- A run of a library's decoder, of so many steps at most: each makes progress, the last consumes the
-- last byte, and the output is what they produce.
pub data Run {Z : Type 0} (step : ℕ → List ℕ → Z → Step × Z)
    : ℕ → List ℕ → Z → List ℕ → Z → Type 0 where
  done : (n : ℕ) (z : Z) → Run step n [] z [] z
  more :
      (n b k : ℕ) (input bytes output : List ℕ) (z next last : Z)
      → step max_chunk_size (b ∷ input) z ≡ (stepped k bytes, next)
      → (k == 0 && is_empty bytes) ≡ false
      → Run step n (drop k (b ∷ input)) next output last
      → Run step (suc n) (b ∷ input) z (bytes ++ output) last

module _ {Z : Type 0} (step : ℕ → List ℕ → Z → Step × Z) where
  stream_loop-runs :
      (fuel n : ℕ) (message : String) (input front output : List ℕ) (z last : Z)
      → Run step n input z output last
      → n < fuel
      → stream_loop step fuel message input front z ≡ (ok (front ++ output), last)
  stream_loop-runs zero n message input front output z last r h = absurd (omega arith)
  stream_loop-runs (suc fuel) n message _ front _ _ _ (done _ z) h =
      ap (λ t. (ok t, z)) (sym (append-nil front))
  stream_loop-runs (suc fuel) _ message _ front _ _ _
        (more n b k input bytes output z next last e p r) h =
      rw (stream_loop, e, p)
        (stream_loop-runs fuel n message (drop k (b ∷ input)) (front ++ bytes) output next last r
            (omega arith)
          ∙ ap (λ t. (ok t, last)) (append_assoc front bytes output))

  stream_loop-ended :
      (fuel : ℕ) (message : String) (input : List ℕ) (z : Z)
      → ((rest : List ℕ) → step max_chunk_size rest z ≡ (stepped 0 [], z))
      → 0 < fuel
      → stream_loop step fuel message input [] z ≡ (ok [], z)
  stream_loop-ended zero message input z e h = absurd (omega arith)
  stream_loop-ended (suc fuel) message [] z e h = refl
  stream_loop-ended (suc fuel) message (b ∷ input) z e h = rw (stream_loop, e (b ∷ input))

  still_busy :
      (consumed k : ℕ) (bytes : List ℕ)
      → (k == 0 && is_empty bytes) ≡ false
      → (consumed + k == 0 && is_empty bytes) ≡ false
  still_busy consumed zero [] p = absurd (ground (arith, p))
  still_busy consumed (suc k) [] p =
      let e : (consumed + suc k == 0) ≡ false = ground arith in rw (e)
  still_busy consumed k (_ ∷ bytes) p = elim (Bool-cases (consumed + k == 0)) [
    | inl e ↦ rw (e)
    | inr e ↦ rw (e)
  ]

  zstd_loop-runs :
      (fuel n consumed : ℕ) (input front output : List ℕ) (z last : Z)
      → Run step n input z output last
      → n < fuel
      → zstd_loop step fuel consumed input front z ≡ (ok (front ++ output), last)
  zstd_loop-runs zero n consumed input front output z last r h = absurd (omega arith)
  zstd_loop-runs (suc fuel) n consumed _ front _ _ _ (done _ z) h =
      ap (λ t. (ok t, z)) (sym (append-nil front))
  zstd_loop-runs (suc fuel) _ consumed _ front _ _ _
        (more n b k input bytes output z next last e p r) h =
      rw (zstd_loop, e, still_busy consumed k bytes p)
        (zstd_loop-runs fuel n (consumed + k) (drop k (b ∷ input)) (front ++ bytes) output next last
            r (omega arith)
          ∙ ap (λ t. (ok t, last)) (append_assoc front bytes output))

-- What the documentation of zstd and of lz4 promises: into a buffer of the bound the library
-- compresses a chunk to a frame that is no longer than the bound for the largest chunk with no
-- preferences, which covers the worst of them, and a decoder
-- between two frames runs through that frame, gives the chunk and is between two frames again. A
-- brotli decoder reads one stream only.
pub record IsLibrary (l : Libraries) (codec : CompressionCodec) (steps : ℕ) : Type 1 where
  pub IsBetween : l.Z → Type 0
  pub start : l.Z
  pub has_context : l.context codec ≡ some start
  pub starts : IsBetween start
  pub frame :
      (chunk : List ℕ) (z : l.Z)
      → IsChunk chunk
      → IsBetween z
      → (bytes : List ℕ) × (after : l.Z) × ((size : ℕ)
          → l.bound codec (length chunk) ≤ size
          → l.compress codec size chunk ≡ inr bytes)
        × Run (l.step codec) steps bytes z chunk after
        × (length bytes ≤ l.default_bound codec max_chunk_size)
        × IsBetween after

compress_by-ok :
    (l : Libraries) (codec : CompressionCodec) (chunk bytes : List ℕ)
    → ((size : ℕ) → l.bound codec (length chunk) ≤ size → l.compress codec size chunk ≡ inr bytes)
    → compress_by l codec chunk ≡ ok bytes
unfolding compress_zstd compress_lz4 compress_brotli
compress_by-ok l CompressionCodec.zstd chunk bytes h =
    rw (compress_zstd, h (l.bound CompressionCodec.zstd (length chunk)) (omega arith))
compress_by-ok l CompressionCodec.lz4 chunk bytes h =
    rw (compress_lz4, h (l.bound CompressionCodec.lz4 (length chunk)) (omega arith))
compress_by-ok l CompressionCodec.brotli chunk bytes h =
    let most = l.bound CompressionCodec.brotli (length chunk) in
    elim (Bool-cases (most == 0)) [
      | inl e ↦
          let z = (==_iff most 0).0 e in
          rw (compress_brotli, e, h (length chunk + length chunk / 4 + 1024) (omega arith))
      | inr e ↦ rw (compress_brotli, e, h most (omega arith))
    ]

decode_by-ok :
    (l : Libraries) (fuel steps : ℕ) (codec : CompressionCodec) (bytes chunk : List ℕ)
    (z after : l.Z)
    → Run (l.step codec) steps bytes z chunk after
    → steps < fuel
    → decode_by l fuel codec bytes (some z) ≡ (ok chunk, some after)
unfolding zstd_decode lz4_decode brotli_decode
decode_by-ok l fuel steps CompressionCodec.zstd bytes chunk z after r h =
    rw (zstd_loop-runs (l.step CompressionCodec.zstd) fuel steps 0 bytes [] chunk z after r h)
decode_by-ok l fuel steps CompressionCodec.lz4 bytes chunk z after r h = rw (
    stream_loop-runs (l.step CompressionCodec.lz4) fuel steps "lz4 decompression failed" bytes []
      chunk z after r h)
decode_by-ok l fuel steps CompressionCodec.brotli bytes chunk z after r h = rw (
    stream_loop-runs (l.step CompressionCodec.brotli) fuel steps "brotli decompression failed" bytes
      [] chunk z after r h)

-- Over a library that keeps the promises of its documentation, with a round more than a frame takes
-- steps, the compression of a chunk and the decoder of that codec are lossless: the frame of a chunk
-- is decoded to the chunk, whatever the steps in which
-- the library takes it.
pub codecs_of-IsLossless :
    (l : Libraries) (codec : CompressionCodec) (steps fuel : ℕ)
    → IsLibrary l codec steps
    → steps < fuel
    → IsLossless (codecs_of l fuel) codec
codecs_of-IsLossless l codec steps fuel law h = record {
  IsBetween = λ d. (z : l.Z) × (d ≡ some z) × law.IsBetween z;
  starts = (law.start, law.has_context, law.starts);
  frame = λ chunk d small (z, e, between).
      let (bytes, after, k, r, w, again) = law.frame chunk z small between in
      (
        bytes,
        some after,
        compress_by-ok l codec chunk bytes k,
        ap (decode_by l fuel codec bytes) e
            ∙ decode_by-ok l fuel steps codec bytes chunk z after r h,
        w,
        (after, refl, again),
      );
}

-- A brotli decoder that has read a stream to its end takes no more input and produces nothing. Then
-- a file of which every chunk is a stream of its own, as `compress_brotli` makes them, is lost after
-- the first: where a stream is a run of at most as many steps as there are rounds less one, it is
-- decoded to its chunk, and every later stream is decoded, without an error, to nothing.
pub brotli_decode-ended :
    {Z : Type 0} (step : ℕ → List ℕ → Z → Step × Z) (fuel steps : ℕ) (stream chunk : List ℕ)
    (start last : Z)
    → Run step steps stream start chunk last
    → ((input : List ℕ) → step max_chunk_size input last ≡ (stepped 0 [], last))
    → steps < fuel
    → (brotli_decode step fuel stream (some start) ≡ (ok chunk, some last))
      × ((later : List ℕ) → brotli_decode step fuel later (some last) ≡ (ok [], some last))
unfolding brotli_decode
brotli_decode-ended step fuel steps stream chunk start last r e h = (
  rw (
      stream_loop-runs step fuel steps "brotli decompression failed" stream [] chunk start last r
        h),
  λ later.
      rw (stream_loop-ended step fuel "brotli decompression failed" later last e (omega arith)),
)
