-- ===== src/Examples/Transfers.antt =====
-- Pulls and pushes at concrete inputs.
use adbcpp.Base.{
  ◌+◌, ◌*◌, ◌<◌, ◌≤◌, ℕ, ◌≡◌, inr, refl, List, [], ◌∷◌, arith, true, false, none, some, take, drop,
  codes,
}
use adbcpp.Base.Text.{contains, eq_bytes}
use adbcpp.Outcome.{ok}
use adbcpp.Protocol.ByteOrder.{write_u32_le}
use adbcpp.Connection.{Connection, Build}
use adbcpp.Stream.Steps.{linked, chan}
use adbcpp.Stream.Serving.{Serves}
use adbcpp.Sync.Wire.{sync_service}
use adbcpp.Sync.Codec.{
  SyncCompression, CompressionCodec, Codecs, compress_chunk, choose_codec, has_codec,
  max_compressed_chunk_size,
}
use mathlib.Core.Path.{subst}
use adbcpp.Sync.Push.{LocalFile, send_chunks, next_chunk, unread, push_by}
use adbcpp.Sync.Pushing.{Verdict, refused, verdict_bytes, verdict_result, push_by-verdict}
use adbcpp.Sync.Upload.{block_transfers}
use adbcpp.Sync.Clock.{
  ℤ, pos, negsuc, pos_part, neg_part, ◌+ℤ◌, ◌-ℤ◌, Clocks, local_mtime, as_u32, aged,
  local_mtime-sent,
}
use adbcpp.Sync.RoundTrip.{IsLossless, encoded, pull-send_chunks}
use adbcpp.Sync.Pulling.{sent_file, writable, pull-sent_file}
use adbcpp.Session.Sending.{sending}
use adbcpp.Connection.{supports_feature}
use adbcpp.Sync.Codec.{transfer_codec}
use adbcpp.Sync.Pull.{pull}
use adbcpp.Examples.Frames.{link_of}
use adbcpp.Examples.Files.{host, device, serving, serving_with, reading}

abbrev no_codecs : Codecs
no_codecs = record {
  Decoder = Unit {0};
  decoder = λ codec. tt;
  decode_frame = λ codec bytes d. (ok bytes, d);
  compress = λ codec bytes. ok bytes;
  bound = λ codec size. size;
}

abbrev plain_build : Build
plain_build = record { compression = false; zstd = false; lz4 = false; brotli = false }

-- The file `hello` in one chunk, cut after three bytes.
abbrev hello_file : List ℕ
hello_file = sent_file (codes "hello" ∷ []) 7

pull-sent_file_example :
    (after : Connection) × (pull plain_build no_codecs (codes "/f") SyncCompression.auto (record {
      connection = linked host (device (take 3 hello_file) (drop 3 hello_file));
      sink = writable (codes "old");
    })
      ≡ (ok tt, record { connection = after; sink = writable (codes "hello") }))
unfolding write_u32_le transfer_codec
pull-sent_file_example =
    pull-sent_file plain_build no_codecs host (device (take 3 hello_file) (drop 3 hello_file))
      (codes "/f") (codes "old") SyncCompression.auto (codes "hello" ∷ []) 7 refl
      (serving (take 3 hello_file) (drop 3 hello_file) (omega arith) (omega arith))
      (omega arith, tt) (omega arith) (omega arith)

-- A build with zstd, and a device that has it.
abbrev zstd_build : Build
zstd_build = record { compression = true; zstd = true; lz4 = false; brotli = false }

abbrev zstd_host : Connection
zstd_host = record host { features = codes "sendrecv_v2" ∷ codes "sendrecv_v2_zstd" ∷ [] }

no_codecs-IsLossless : IsLossless no_codecs CompressionCodec.zstd
no_codecs-IsLossless = record {
  IsBetween = λ d. Unit {0};
  starts = tt;
  frame = λ chunk d h r. (chunk, tt, refl, refl, h.1, tt);
}

abbrev hello_chunks : List (List ℕ)
hello_chunks = encoded (compress_chunk zstd_build no_codecs CompressionCodec.zstd) 5 (codes "hello")

hello_same : hello_file ≡ sent_file hello_chunks 7
unfolding encoded compress_chunk next_chunk unread
hello_same = refl

pull-send_chunks_example :
    (send_chunks
        (compress_chunk zstd_build no_codecs CompressionCodec.zstd)
        5
        (codes "hello")
        (chan zstd_host (link_of []) reading)
      ≡ (
        ok tt,
        chan zstd_host (sending (link_of []) (block_transfers reading hello_chunks)) reading,
      ))
    × (after : Connection) × (pull zstd_build no_codecs (codes "/f") SyncCompression.auto (record {
      connection = linked zstd_host (device (take 3 hello_file) (drop 3 hello_file));
      sink = writable (codes "old");
    })
        ≡ (ok tt, record { connection = after; sink = writable (codes "hello") }))
unfolding write_u32_le transfer_codec choose_codec has_codec supports_feature contains eq_bytes
    max_compressed_chunk_size
pull-send_chunks_example =
    pull-send_chunks zstd_build no_codecs CompressionCodec.zstd zstd_host (link_of []) reading
      (codes "hello") zstd_host (device (take 3 hello_file) (drop 3 hello_file)) (codes "/f")
      (codes "old") SyncCompression.auto 7 no_codecs-IsLossless refl refl (omega arith)
      (omega arith) refl
      (subst (λ t. Serves zstd_host (device (take 3 hello_file) (drop 3 hello_file)) sync_service t)
        hello_same
        (serving_with (take 3 hello_file) (drop 3 hello_file) zstd_host.features (omega arith)
          (omega arith)))
      (omega arith) (omega arith)

-- A device that refuses the file.
abbrev no_space : Verdict
no_space = refused (codes "no space")

-- A file clock whose epoch is 2174, as that of libstdc++: a file written a second and a half ago.
abbrev written_at : ℤ
written_at = negsuc 4704067199999999999

abbrev seen : Clocks
seen = record {
  file_time = some written_at;
  file_now = negsuc 4704067198499999999;
  system_now = pos 1733000000000000000;
  time = pos 1733000000;
}

aged_positive : neg_part (aged written_at seen.system_now seen.file_now) ≡ 0
unfolding ◌+ℤ◌ ◌-ℤ◌
aged_positive = refl

aged_low : 2000000000 ≤ pos_part (aged written_at seen.system_now seen.file_now)
unfolding ◌+ℤ◌ ◌-ℤ◌
aged_low = omega arith

aged_high :
    pos_part (aged written_at seen.system_now seen.file_now) + 2000000000 ≤ 4294967296000000000
unfolding ◌+ℤ◌ ◌-ℤ◌
aged_high = omega arith

local_mtime-sent_example :
    (as_u32 (local_mtime seen) * 1000000000
      < pos_part (aged written_at seen.system_now seen.file_now) + 2000000000)
    × (pos_part (aged written_at seen.system_now seen.file_now)
        < as_u32 (local_mtime seen) * 1000000000 + 2000000000)
local_mtime-sent_example =
    local_mtime-sent seen written_at refl refl (inr (refl, refl)) aged_positive aged_low aged_high

abbrev hello_local : LocalFile
hello_local = record {
  is_regular_file = true;
  filename = codes "hello";
  mode = some 33188;
  clocks = seen;
  opens = true;
  contents = codes "hello";
  ends_well = true;
}

push_by-verdict_example :
    (after : Connection) × (push_by plain_build no_codecs hello_local
        (codes "/f")
        none
        (linked host (device (verdict_bytes no_space) []))
      ≡ (verdict_result no_space, after))
unfolding write_u32_le
push_by-verdict_example =
    push_by-verdict plain_build no_codecs none host (device (verdict_bytes no_space) []) hello_local
      (codes "/f") no_space (serving (verdict_bytes no_space) [] (omega arith) (omega arith)) refl
      refl (omega arith) (λ chunk h. (chunk, refl, omega (arith, h))) (omega arith) (omega arith)
