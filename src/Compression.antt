-- ===== src/Compression.antt =====
-- src/compression.cpp: the compression of a chunk and the decoders of zstd, lz4 and brotli. The
-- libraries are parameters: `Z` is the state of a decoder of one of them, and a step takes the input
-- that is left and the size of the output buffer.
pub mod Decoding
pub mod Libraries
use adbcpp.Base.{
  ℕ, zero, suc, ◌+◌, ◌/◌, Bool, true, false, not, ◌&&◌, ◌==◌, if◌then◌else◌, List, [], ◌∷◌, ◌++◌,
  Option, none, some, ◌⊎◌, inl, inr, String, length, take, drop, is_empty, codes,
}
use adbcpp.Outcome.{Error, Result, ok, err, stuck, error, protocol}

abbrev pub max_chunk_size : ℕ
max_chunk_size = 65536

-- What a step of a decoder does: it fails, with the name of its error, or consumes a number of bytes
-- of the input and produces some of the output.
pub data Step : Type 0 where
  failed : List ℕ → Step
  stepped : ℕ → List ℕ → Step

-- `zstd_error`, `lz4_error`, and the error of brotli.
unfoldable pub codec_error : String → List ℕ → Error
codec_error operation name = record {
  code = protocol;
  message = operation;
  detail = codes ": " ++ name;
}

module _ {Z : Type 0} (step : ℕ → List ℕ → Z → Step × Z) where
  -- The loop of `ZstdDecoder::decode`: `consumed` is `in.pos`, and `input` what is left. The test for
  -- a call without progress reads `in.pos`, which counts the calls before too.
  abbrev pub zstd_answer :
      (ℕ → List ℕ → List ℕ → Z → Result (List ℕ) × Z)
      → ℕ
      → List ℕ
      → List ℕ
      → Step × Z
      → Result (List ℕ) × Z
  zstd_answer again consumed input output (failed name, z) =
      (err (codec_error "zstd decompression failed" name), z)
  zstd_answer again consumed input output (stepped n bytes, z) =
      let later = again (consumed + n) (drop n input) (output ++ bytes) z in
      if (consumed + n) == 0 && is_empty bytes then (ok (output ++ bytes), z) else later

  abbrev pub zstd_loop : ℕ → ℕ → List ℕ → List ℕ → Z → Result (List ℕ) × Z
  zstd_loop zero consumed input output z = (stuck, z)
  zstd_loop (suc fuel) consumed input output z =
      if is_empty input
      then (ok output, z)
      else zstd_answer (zstd_loop fuel) consumed input output (step max_chunk_size input z)

  -- The loop of `Lz4Decoder::decode` and of `BrotliDecoder::decode`, which differ in the text of their
  -- errors: they end with a call that consumes and produces nothing.
  abbrev pub stream_answer :
      (List ℕ → List ℕ → Z → Result (List ℕ) × Z)
      → String
      → List ℕ
      → List ℕ
      → Step × Z
      → Result (List ℕ) × Z
  stream_answer again message input output (failed name, z) = (err (codec_error message name), z)
  stream_answer again message input output (stepped n bytes, z) =
      let later = again (drop n input) (output ++ bytes) z in
      if n == 0 && is_empty bytes then (ok (output ++ bytes), z) else later

  abbrev pub stream_loop : ℕ → String → List ℕ → List ℕ → Z → Result (List ℕ) × Z
  stream_loop zero message input output z = (stuck, z)
  stream_loop (suc fuel) message input output z =
      if is_empty input
      then (ok output, z)
      else stream_answer (stream_loop fuel message) message input output
          (step max_chunk_size input z)

-- The decoders: `none` is a library's context that could not be created.
module _ {Z : Type 0} (step : ℕ → List ℕ → Z → Step × Z) where
  abbrev kept : Result (List ℕ) × Z → Result (List ℕ) × Option Z
  kept (r, z) = (r, some z)

  unfoldable pub zstd_decode : ℕ → List ℕ → Option Z → Result (List ℕ) × Option Z
  zstd_decode fuel input none =
      (err (error protocol "the zstd decompression context could not be created"), none)
  zstd_decode fuel input (some z) = kept (zstd_loop step fuel 0 input [] z)

  unfoldable pub lz4_decode : ℕ → List ℕ → Option Z → Result (List ℕ) × Option Z
  lz4_decode fuel input none =
      (err (error protocol "the lz4 decompression context could not be created"), none)
  lz4_decode fuel input (some z) =
      kept (stream_loop step fuel "lz4 decompression failed" input [] z)

  unfoldable pub brotli_decode : ℕ → List ℕ → Option Z → Result (List ℕ) × Option Z
  brotli_decode fuel input none =
      (err (error protocol "the brotli decompression context could not be created"), none)
  brotli_decode fuel input (some z) =
      kept (stream_loop step fuel "brotli decompression failed" input [] z)

-- A library's compression of a chunk into a buffer: the name of its error, or the bytes.
unfoldable pub compress_zstd : (ℕ → ℕ) → (ℕ → List ℕ → List ℕ ⊎ List ℕ) → List ℕ → Result (List ℕ)
compress_zstd compress_bound compress input =
    elim (compress (compress_bound (length input)) input) [
      | inl name ↦ err (codec_error "zstd compression failed" name)
      | inr bytes ↦ ok bytes
    ]

unfoldable pub compress_lz4 : (ℕ → ℕ) → (ℕ → List ℕ → List ℕ ⊎ List ℕ) → List ℕ → Result (List ℕ)
compress_lz4 frame_bound compress input = elim (compress (frame_bound (length input)) input) [
  | inl name ↦ err (codec_error "lz4 compression failed" name)
  | inr bytes ↦ ok bytes
]

-- A bound of zero, which is an overflow, is replaced. Brotli names no error.
unfoldable pub compress_brotli : (ℕ → ℕ) → (ℕ → List ℕ → Option (List ℕ)) → List ℕ → Result (List ℕ)
compress_brotli max_compressed_size compress input =
    let bound = max_compressed_size (length input) in
    let size = if bound == 0 then length input + length input / 4 + 1024 else bound in
    elim (compress size input) [
      | none ↦ err (error protocol "brotli compression failed")
      | some bytes ↦ ok bytes
    ]
