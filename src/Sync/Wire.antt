-- ===== src/Sync/Wire.antt =====
-- The ids, requests and replies of the sync protocol, from src/sync.cpp.
use adbcpp.Base.{
  ℕ, ◌*◌, ◌^◌, ◌%◌, List, [], ◌∷◌, ◌++◌, bit_or, not, ◌==◌, if◌then◌else◌, length, drop, codes,
}
use adbcpp.Outcome.{error, device, protocol}
use adbcpp.Outcome.Exec.{Exec, pure, fail, ◌>>=◌}
use adbcpp.Protocol.ByteOrder.{write_u32_le, read_u32_le}
use adbcpp.Protocol.Commands.{make_command}
use adbcpp.Stream
use adbcpp.Stream.{Channel}

abbrev pub list_v1 : ℕ
list_v1 = make_command b'L' b'I' b'S' b'T'

abbrev pub list_v2 : ℕ
list_v2 = make_command b'L' b'I' b'S' b'2'

abbrev pub dent_v1 : ℕ
dent_v1 = make_command b'D' b'E' b'N' b'T'

abbrev pub dent_v2 : ℕ
dent_v2 = make_command b'D' b'N' b'T' b'2'

abbrev pub recv_v1 : ℕ
recv_v1 = make_command b'R' b'E' b'C' b'V'

abbrev pub send_v1 : ℕ
send_v1 = make_command b'S' b'E' b'N' b'D'

abbrev pub stat_v2 : ℕ
stat_v2 = make_command b'S' b'T' b'A' b'2'

abbrev pub stat_v1 : ℕ
stat_v1 = make_command b'S' b'T' b'A' b'T'

abbrev pub data_id : ℕ
data_id = make_command b'D' b'A' b'T' b'A'

abbrev pub done_id : ℕ
done_id = make_command b'D' b'O' b'N' b'E'

abbrev pub okay_id : ℕ
okay_id = make_command b'O' b'K' b'A' b'Y'

abbrev pub fail_id : ℕ
fail_id = make_command b'F' b'A' b'I' b'L'

abbrev pub quit_id : ℕ
quit_id = make_command b'Q' b'U' b'I' b'T'

abbrev pub recv_v2 : ℕ
recv_v2 = make_command b'R' b'C' b'V' b'2'

abbrev pub send_v2 : ℕ
send_v2 = make_command b'S' b'N' b'D' b'2'

abbrev pub max_path_length : ℕ
max_path_length = 1024

abbrev pub max_name_length : ℕ
max_name_length = 255

abbrev pub max_chunk_size : ℕ
max_chunk_size = 64 * 1024

abbrev pub sync_service : List ℕ
sync_service = codes "sync:"

unfoldable pub read_u64_le : List ℕ → ℕ
read_u64_le bytes =
    bit_or (read_u32_le bytes) (read_u32_le (drop 4 bytes) * 2 ^ 32 % 18446744073709551616)

-- An id, the length of the path and the path.
abbrev pub path_request : ℕ → List ℕ → List ℕ
path_request id path = write_u32_le id ++ (write_u32_le (length path % 4294967296) ++ path)

unfoldable pub write_path_request : ℕ → List ℕ → Exec Channel Unit
write_path_request id path = Stream.write (path_request id path)

unfoldable pub write_recv_v2 : List ℕ → ℕ → Exec Channel Unit
write_recv_v2 path flags =
    Stream.write (path_request recv_v2 path ++ (write_u32_le recv_v2 ++ write_u32_le flags))

unfoldable pub write_send_v2 : List ℕ → ℕ → ℕ → Exec Channel Unit
write_send_v2 path mode flags = Stream.write (
    path_request send_v2 path
    ++ (write_u32_le send_v2 ++ (write_u32_le mode ++ write_u32_le flags)))

-- The return of the error that `sync_fail` makes: the device's reason, or why it could not be read.
unfoldable pub sync_fail : {A : Type 0} → Exec Channel A
sync_fail = do
  length_bytes ← Stream.read 4
  reason ← Stream.read (read_u32_le length_bytes)
  fail (record { code = device; message = "the sync request failed: "; detail = reason })

unfoldable pub write_quit : Exec Channel Unit
write_quit = Stream.write (write_u32_le quit_id ++ 0 ∷ 0 ∷ 0 ∷ 0 ∷ [])

-- The answer to a transfer.
unfoldable pub read_status : Exec Channel Unit
read_status = do
  id_bytes ← Stream.read 4
  let id = read_u32_le id_bytes
  if id == fail_id
      then sync_fail
      else if not (id == okay_id)
      then fail (error protocol "unexpected sync response")
      else do length_bytes ← Stream.read 4; pure tt
