-- ===== src/Sync/Stat.antt =====
-- `stat` of src/sync.cpp, with the fields that a listing shares.
use adbcpp.Base.{
  ℕ, List, Bool, ◌&&◌, not, ltb, ◌==◌, if◌then◌else◌, Option, none, some, length, drop, codes,
  bit_and,
}
use adbcpp.Outcome.{err, error, invalid_argument}
use adbcpp.Outcome.Exec.{Exec, pure, ◌>>=◌, ◌>>◌}
use adbcpp.Protocol.ByteOrder.{read_u32_le}
use adbcpp.Connection.{Connection, supports_feature}
use adbcpp.Stream
use adbcpp.Stream.{Channel, with_stream}
use adbcpp.Sync.Wire.{
  stat_v1, stat_v2, max_path_length, sync_service, read_u64_le, write_path_request, write_quit,
}

-- The time is the 64-bit pattern of a signed number.
pub record FileStat : Type 0 where
  pub mode : ℕ
  pub size : ℕ
  pub mtime : ℕ

-- The masks are octal in the source: 0170000, 0040000 and 0100000.
unfoldable pub is_directory : FileStat → Bool
is_directory s = bit_and s.mode 61440 == 16384

unfoldable pub is_regular : FileStat → Bool
is_regular s = bit_and s.mode 61440 == 32768

unfoldable pub read_v1 : List ℕ → FileStat
read_v1 body = record {
  mode = read_u32_le body;
  size = read_u32_le (drop 4 body);
  mtime = read_u32_le (drop 8 body);
}

unfoldable pub read_v2 : List ℕ → FileStat
read_v2 body = record {
  mode = read_u32_le (drop 20 body);
  size = read_u64_le (drop 36 body);
  mtime = read_u64_le (drop 52 body);
}

-- A missing path in each form of the reply.
unfoldable pub is_missing_v1 : List ℕ → Bool
is_missing_v1 body =
    read_u32_le body == 0 && (read_u32_le (drop 4 body) == 0 && read_u32_le (drop 8 body) == 0)

unfoldable pub is_missing_v2 : List ℕ → Bool
is_missing_v2 body = not (read_u32_le body == 0)

-- `write_quit` on the way out, with what `stat` returns then.
abbrev pub quit_with : Option FileStat → Exec Channel (Option FileStat)
quit_with result = do write_quit; pure result

unfoldable pub stat_body : Bool → List ℕ → Exec Channel (Option FileStat)
stat_body v2 path = do
  write_path_request (if v2 then stat_v2 else stat_v1) path
  id_bytes ← Stream.read 4
  if v2
      then (do
        body ← Stream.read 68
        if is_missing_v2 body then quit_with none else quit_with (some (read_v2 body)))
      else (do
        body ← Stream.read 12
        if is_missing_v1 body then quit_with none else quit_with (some (read_v1 body)))

unfoldable pub stat : List ℕ → Exec Connection (Option FileStat)
stat path c =
    if ltb max_path_length (length path)
    then (err (error invalid_argument "the path is longer than the sync limit of 1024 bytes"), c)
    else with_stream sync_service (stat_body (supports_feature c (codes "stat_v2")) path) c
