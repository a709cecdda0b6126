-- ===== src/Examples/Services.antt =====
-- The services at concrete inputs.
use adbcpp.Base.{
  ℕ, ◌≡◌, refl, List, [], ◌∷◌, ◌++◌, arith, true, false, some, inl, length, codes, Option,
  replicate,
}
use adbcpp.Base.Text.{contains, eq_bytes}
use adbcpp.Outcome.{ok, err, error, invalid_argument}
use adbcpp.Transport.{Link}
use adbcpp.Connection.{Connection, Build, fresh, supports_feature}
use adbcpp.Stream.{Stream}
use adbcpp.Stream.Steps.{chan}
use adbcpp.Shell.{packets_result}
use adbcpp.Shell.Packets.{Packet, stream, packets_result-stream}
use adbcpp.App.{shell_quote}
use adbcpp.App.Quoting.{outside, read_word, read_word-shell_quote}
use adbcpp.Sync.Codec.{SyncCompression, CompressionCodec, has_codec, choose_codec}
use adbcpp.Sync.Choice.{Answers, IsBestOf, choose_codec-Answers}
use adbcpp.Sync.Push.{send_chunks}
use adbcpp.Sync.Upload.{send_chunks-refused}
use adbcpp.Examples.Frames.{link_of}

-- The output `hi`, the error `no`, exit status 3, and the front of a packet.
abbrev printed : List Packet
printed =
    record { id = 1; bytes = codes "hi" }
    ∷ record { id = 2; bytes = codes "no" }
    ∷ record { id = 3; bytes = 3 ∷ [] }
    ∷ []

packets_result-stream_example : packets_result (stream printed ++ 1 ∷ 9 ∷ []) ≡ record {
  output = codes "hino";
  standard_output = codes "hi";
  error_output = codes "no";
  exit_code = 3;
  success = false;
}
packets_result-stream_example =
    packets_result-stream printed (1 ∷ 9 ∷ []) (omega arith, (omega arith, (omega arith, tt)))
      (inl (omega arith))

read_word-shell_quote_example :
    read_word outside (shell_quote (codes "it's; rm") ++ b' ' ∷ codes "x")
    ≡ some (codes "it's; rm", b' ' ∷ codes "x")
read_word-shell_quote_example = read_word-shell_quote (codes "it's; rm") (codes "x")

abbrev every_codec : Build
every_codec = record { compression = true; zstd = true; lz4 = true; brotli = true }

abbrev quiet : Link
quiet = link_of []

-- A device with all codecs but brotli.
abbrev phone : Connection
phone = record (fresh quiet) {
  features = codes "sendrecv_v2" ∷ codes "sendrecv_v2_zstd" ∷ codes "sendrecv_v2_lz4" ∷ [];
  peer_max_data = 262144;
}

-- A device with payloads of four KiB.
abbrev old_phone : Connection
old_phone = record (fresh quiet) { peer_max_data = 4096 }

abbrev syncing : Stream
syncing = record {
  service = codes "sync:";
  local_id = 2;
  remote_id = 3;
  closed = false;
  incoming = [];
  incoming_offset = 0;
}

choose_codec-Answers_example :
    ((o : Option CompressionCodec) × ((choose_codec every_codec phone SyncCompression.auto ≡ ok o)
        × IsBestOf (has_codec every_codec phone) o))
    × Answers every_codec phone CompressionCodec.brotli
        (choose_codec every_codec phone SyncCompression.brotli)
choose_codec-Answers_example = choose_codec-Answers every_codec phone CompressionCodec.brotli

phone_has :
    (has_codec every_codec phone CompressionCodec.lz4 ≡ true)
    × (has_codec every_codec phone CompressionCodec.zstd ≡ true)
unfolding has_codec supports_feature contains eq_bytes
phone_has = (refl, refl)

abbrev large : List ℕ
large = replicate 4089 0

send_chunks-refused_example : send_chunks ok (length large) large (chan old_phone quiet syncing) ≡ (
  err (error invalid_argument "the write is larger than the negotiated maximum payload"),
  chan old_phone quiet syncing,
)
send_chunks-refused_example =
    send_chunks-refused old_phone quiet syncing large (omega arith) (omega arith)
