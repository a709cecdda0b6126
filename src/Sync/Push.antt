-- ===== src/Sync/Push.antt =====
-- `push` and `push_v2` of src/sync.cpp: a local file to the device.
use adbcpp.Base.{
  ℕ, zero, suc, ◌+◌, ◌/◌, ◌%◌, List, [], ◌∷◌, ◌++◌, Bool, not, ◌==◌, if◌then◌else◌, Option, none,
  some, length, take, drop, is_empty, bit_and, bit_or,
}
use adbcpp.Outcome.{Result, ok, stuck, error, invalid_argument, io}
use adbcpp.Outcome.Exec.{Exec, pure, fail, lift, ◌>>=◌, ◌>>◌}
use adbcpp.Protocol.ByteOrder.{write_u32_le}
use adbcpp.Connection.{Connection, Build}
use adbcpp.Stream
use adbcpp.Stream.{Channel, with_stream}
use adbcpp.Sync.Wire.{
  send_v1, done_id, data_id, max_chunk_size, sync_service, write_path_request, write_send_v2,
  write_quit, read_status,
}
use adbcpp.Sync.Codec.{
  SyncCompression, CompressionCodec, Codecs, sync_flag_of, compress_chunk, transfer_codec,
}
use adbcpp.Sync.Clock.{Clocks, local_mtime, as_u32}
use adbcpp.Sync.Stat.{FileStat, stat, is_directory}

-- A local file, as the file system and the clock report it: the mode is that of `::stat`, where it
-- succeeds, and `ends_well` is `eof()` after the last read.
pub record LocalFile : Type 0 where
  pub is_regular_file : Bool
  pub filename : List ℕ
  pub mode : Option ℕ
  pub clocks : Clocks
  pub opens : Bool
  pub contents : List ℕ
  pub ends_well : Bool

-- The masks are octal in the source: 0100000, 0600 and 0777.
unfoldable pub local_mode : LocalFile → ℕ
local_mode file = elim file.mode [ none ↦ bit_or 32768 384 | some mode ↦ bit_and mode 511 ]

-- `std::to_string` of a `std::uint32_t`, which has ten digits at most, in front of `text`.
abbrev pub prepend_digits : ℕ → ℕ → List ℕ → List ℕ
prepend_digits zero n text = text
prepend_digits (suc fuel) n text =
    let digits = (b'0' + n % 10) ∷ text in
    let more = prepend_digits fuel (n / 10) digits in if n / 10 == 0 then digits else more

unfoldable pub to_string : ℕ → List ℕ
to_string n = prepend_digits 10 n []

-- A header of the transfer: an id and a number.
abbrev pub sync_header : ℕ → ℕ → List ℕ
sync_header id n = write_u32_le id ++ write_u32_le (n % 4294967296)

-- `input.read` into the buffer, and what it leaves to read.
unfoldable pub next_chunk : List ℕ → List ℕ
next_chunk contents = take max_chunk_size contents

unfoldable pub unread : List ℕ → List ℕ
unread contents = drop max_chunk_size contents

-- The loop over the chunks of the file, on what is left to read; each round reads a byte or more.
unfoldable pub send_chunks : (List ℕ → Result (List ℕ)) → ℕ → List ℕ → Exec Channel Unit
send_chunks compress zero contents c = (if is_empty contents then ok tt else stuck, c)
send_chunks compress (suc fuel) contents c =
    (if is_empty contents then pure tt else do
      bytes ← lift (compress (next_chunk contents))
      Stream.write (sync_header data_id (length bytes) ++ bytes)
      send_chunks compress fuel (unread contents))
      c

-- What follows the request, in both forms.
unfoldable pub send_file : (List ℕ → Result (List ℕ)) → LocalFile → Exec Channel Unit
send_file compress file =
    if not file.opens then fail (error io "cannot open the local file") else do
      send_chunks compress (length file.contents) file.contents
      if not file.ends_well then fail (error io "failed to read the local file") else do
        Stream.write (sync_header done_id (as_u32 (local_mtime file.clocks)))
        read_status
        write_quit

unfoldable pub push_v1 : LocalFile → List ℕ → Exec Connection Unit
push_v1 file destination = with_stream sync_service (do
  write_path_request send_v1 (destination ++ b',' ∷ to_string (local_mode file))
  send_file ok file)

unfoldable pub push_v2 :
    Build → Codecs → CompressionCodec → LocalFile → List ℕ → Exec Connection Unit
push_v2 b libraries codec file destination = with_stream sync_service (do
  write_send_v2 destination (local_mode file) (sync_flag_of codec)
  send_file (compress_chunk b libraries codec) file)

-- A directory receives the file under its local name.
unfoldable pub destination_of : List ℕ → LocalFile → Option FileStat → List ℕ
destination_of remote_path file none = remote_path
destination_of remote_path file (some found) =
    if is_directory found then remote_path ++ b'/' ∷ file.filename else remote_path

-- The form that the choice of a codec selects.
abbrev pub push_by :
    Build → Codecs → LocalFile → List ℕ → Option CompressionCodec → Exec Connection Unit
push_by b libraries file destination none = push_v1 file destination
push_by b libraries file destination (some codec) = push_v2 b libraries codec file destination

unfoldable pub push : Build → Codecs → LocalFile → List ℕ → SyncCompression → Exec Connection Unit
push b libraries file remote_path compression =
    if not file.is_regular_file
    then fail (error invalid_argument "the local file is not a regular file")
    else do
      existing ← stat remote_path
      codec ← λ c. (transfer_codec b c compression, c)
      push_by b libraries file (destination_of remote_path file existing) codec
