-- ===== src/Sync/Listing.antt =====
-- `list` of src/sync.cpp.
use adbcpp.Base.{
  ℕ, zero, suc, ◌+◌, List, [], ◌∷◌, ◌++◌, Bool, ◌&&◌, not, ltb, ◌==◌, if◌then◌else◌, length, drop,
  codes,
}
use adbcpp.Outcome.{stuck, err, error, invalid_argument, protocol}
use adbcpp.Outcome.Exec.{Exec, pure, fail, ◌>>=◌, ◌>>◌}
use adbcpp.Protocol.ByteOrder.{read_u32_le}
use adbcpp.Connection.{Connection, supports_feature}
use adbcpp.Stream
use adbcpp.Stream.{Channel, with_stream, buffered, rounds}
use adbcpp.Sync.Wire.{
  list_v1, list_v2, dent_v1, dent_v2, done_id, fail_id, max_path_length, max_name_length,
  sync_service, write_path_request, write_quit, sync_fail,
}
use adbcpp.Sync.Stat.{FileStat, read_v1, read_v2, is_missing_v2}

-- The metadata of an entry has the fields and the tests of `FileStat`.
pub record DirEntry : Type 0 where
  pub name : List ℕ
  pub metadata : FileStat

-- The entry with its name, unless the device could not read it.
unfoldable pub add_entry : Bool → List ℕ → List ℕ → List DirEntry → List DirEntry
add_entry v2 body name entries =
    if v2 && is_missing_v2 body
    then entries
    else entries
      ++ record { name = name; metadata = if v2 then read_v2 body else read_v1 body } ∷ []

-- The loop over the entries; each round takes 20 bytes of the stream or more.
unfoldable pub read_entries : ℕ → Bool → List DirEntry → Exec Channel (List DirEntry)
read_entries zero v2 entries c = (stuck, c)
read_entries (suc fuel) v2 entries c =
    (do
      id_bytes ← Stream.read 4
      let id = read_u32_le id_bytes
      if id == fail_id then sync_fail else do
        body ← Stream.read (if v2 then 72 else 16)
        if id == done_id
            then pure entries
            else if not (id == (if v2 then dent_v2 else dent_v1))
            then fail (error protocol "unexpected sync response")
            else do
              let name_length = read_u32_le (drop (if v2 then 68 else 12) body)
              if ltb max_name_length name_length
                  then fail (error protocol "the entry name is longer than 255 bytes")
                  else do
                    name ← Stream.read name_length
                    read_entries fuel v2 (add_entry v2 body name entries))
      c

-- More rounds than there are bytes that the stream can still deliver.
abbrev pub sync_rounds : Channel → ℕ
sync_rounds c = length (buffered c.stream) + rounds c.connection

unfoldable pub list_body : Bool → List ℕ → Exec Channel (List DirEntry)
list_body v2 path = do
  write_path_request (if v2 then list_v2 else list_v1) path
  entries ← λ c. read_entries (sync_rounds c) v2 [] c
  write_quit
  pure entries

unfoldable pub list : List ℕ → Exec Connection (List DirEntry)
list path c =
    if ltb max_path_length (length path)
    then (err (error invalid_argument "the path is longer than the sync limit of 1024 bytes"), c)
    else with_stream sync_service (list_body (supports_feature c (codes "ls_v2")) path) c
