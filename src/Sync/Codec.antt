-- ===== src/Sync/Codec.antt =====
-- The choice of a codec, from src/sync.cpp, and the interface of the codecs themselves.
use Prim.Native.Nat.{max}
use adbcpp.Base.{ℕ, List, Bool, not, ◌&&◌, if◌then◌else◌, Option, none, some, codes}
use adbcpp.Outcome.{Result, ok, err, error, invalid_argument, protocol}
use adbcpp.Connection.{Connection, Build, supports_feature}

pub data SyncCompression : Type 0 where
  auto plain zstd lz4 brotli : SyncCompression

pub data CompressionCodec : Type 0 where
  zstd lz4 brotli : CompressionCodec

abbrev pub sync_flag_of : CompressionCodec → ℕ
sync_flag_of CompressionCodec.zstd = 4
sync_flag_of CompressionCodec.lz4 = 2
sync_flag_of CompressionCodec.brotli = 1

-- The codecs of the linked libraries: the state of a decoder, the frame of a chunk, and the bound that
-- `max_compressed_chunk_size` asks for, which for lz4 is that of no preferences.
pub record Codecs : Type 1 where
  pub Decoder : Type 0
  pub decoder : CompressionCodec → Decoder
  pub decode_frame : CompressionCodec → List ℕ → Decoder → Result (List ℕ) × Decoder
  pub compress : CompressionCodec → List ℕ → Result (List ℕ)
  pub bound : CompressionCodec → ℕ → ℕ

-- The codecs that the build has.
abbrev pub is_built : Build → CompressionCodec → Bool
is_built b CompressionCodec.zstd = b.zstd
is_built b CompressionCodec.lz4 = b.lz4
is_built b CompressionCodec.brotli = b.brotli

unfoldable pub compress_chunk : Build → Codecs → CompressionCodec → List ℕ → Result (List ℕ)
compress_chunk b libraries codec input =
    if is_built b codec
    then libraries.compress codec input
    else err (error protocol "the sync codec is not built in")

unfoldable pub chunk_decode :
    Build
    → (libraries : Codecs) → CompressionCodec
    → List ℕ
    → libraries.Decoder
    → Result (List ℕ) × libraries.Decoder
chunk_decode b libraries codec input decoder =
    if is_built b codec
    then libraries.decode_frame codec input decoder
    else (err (error protocol "the sync codec is not built in"), decoder)

abbrev pub built_bound : Build → Codecs → ℕ → CompressionCodec → ℕ
built_bound b libraries size codec = if is_built b codec then libraries.bound codec size else 0

unfoldable pub max_compressed_chunk_size : Build → Codecs → ℕ → ℕ
max_compressed_chunk_size b libraries size =
    max
      (max (built_bound b libraries size CompressionCodec.zstd)
        (built_bound b libraries size CompressionCodec.lz4))
      (built_bound b libraries size CompressionCodec.brotli)

-- Whether a codec is built in and the device has it.
unfoldable pub has_codec : Build → Connection → CompressionCodec → Bool
has_codec b c CompressionCodec.zstd =
    b.zstd
    && (supports_feature c (codes "sendrecv_v2") && supports_feature c (codes "sendrecv_v2_zstd"))
has_codec b c CompressionCodec.lz4 =
    b.lz4
    && (supports_feature c (codes "sendrecv_v2") && supports_feature c (codes "sendrecv_v2_lz4"))
has_codec b c CompressionCodec.brotli =
    b.brotli
    && (supports_feature c (codes "sendrecv_v2") && supports_feature c (codes "sendrecv_v2_brotli"))

-- The best codec of both sides.
abbrev pub best_codec : Bool → Bool → Bool → Option CompressionCodec
best_codec has_zstd has_lz4 has_brotli =
    if has_zstd
    then some CompressionCodec.zstd
    else if has_lz4
    then some CompressionCodec.lz4
    else if has_brotli
    then some CompressionCodec.brotli
    else none

-- `choose_codec`: the guards of an explicit choice, then the order of preference.
unfoldable pub choose_codec :
    Build → Connection → SyncCompression → Result (Option CompressionCodec)
choose_codec b c SyncCompression.plain = ok none
choose_codec b c SyncCompression.auto = ok (
    best_codec (has_codec b c CompressionCodec.zstd) (has_codec b c CompressionCodec.lz4)
      (has_codec b c CompressionCodec.brotli))
choose_codec b c SyncCompression.zstd =
    if not (has_codec b c CompressionCodec.zstd)
    then err (error invalid_argument "zstd compression is not available for this device or build")
    else ok (
        best_codec (has_codec b c CompressionCodec.zstd) (has_codec b c CompressionCodec.lz4)
          (has_codec b c CompressionCodec.brotli))
choose_codec b c SyncCompression.lz4 =
    if not (has_codec b c CompressionCodec.lz4)
    then err (error invalid_argument "lz4 compression is not available for this device or build")
    else ok (
        best_codec (has_codec b c CompressionCodec.zstd) (has_codec b c CompressionCodec.lz4)
          (has_codec b c CompressionCodec.brotli))
choose_codec b c SyncCompression.brotli =
    if not (has_codec b c CompressionCodec.brotli)
    then err (error invalid_argument "brotli compression is not available for this device or build")
    else ok (
        best_codec (has_codec b c CompressionCodec.zstd) (has_codec b c CompressionCodec.lz4)
          (has_codec b c CompressionCodec.brotli))

-- What `pull` and `push` do with the choice: a build with no codec at all has none to choose from.
unfoldable pub transfer_codec :
    Build → Connection → SyncCompression → Result (Option CompressionCodec)
transfer_codec b c compression =
    if b.compression then choose_codec b c compression else unbuilt compression
  where
    unbuilt : SyncCompression → Result (Option CompressionCodec)
    unbuilt SyncCompression.auto = ok none
    unbuilt SyncCompression.plain = ok none
    unbuilt _ = err (error invalid_argument "compression is not available for this device or build")
