-- ===== src/Sync/Metadata.antt =====
-- `stat` of src/sync.cpp on a device that answers it.
use adbcpp.Base.{
  ℕ, ◌≤◌, ◌≡◌, sym, ap, ◌∙◌, List, [], ◌++◌, append-nil, arith, Bool, true, false, ◌&&◌, not, ◌==◌,
  if◌then◌else◌, Option, none, some, length, not_lt→ltb, codes, Bool-cases, inl, inr,
}
use adbcpp.Outcome.{ok}
use adbcpp.Transport.{Link}
use adbcpp.Connection.{Connection, supports_feature}
use adbcpp.Stream.{Stream, Channel}
use adbcpp.Stream.Steps.{linked}
use adbcpp.Stream.Opening.{numbered}
use adbcpp.Stream.Supply.{Supplies}
use adbcpp.Stream.Supply.Filling.{read-front}
use adbcpp.Stream.Writing.{write-Supplies}
use adbcpp.Stream.Serving.{Serves, with_stream-Serves}
use adbcpp.Sync.Wire.{
  stat_v1, stat_v2, max_path_length, sync_service, path_request, write_path_request,
}
use adbcpp.Sync.Stat.{FileStat, is_missing_v1, is_missing_v2, read_v1, read_v2, stat_body, stat}
use adbcpp.Sync.Replies.{quit-Supplies, length-path_request}
use adbcpp.Sync.Directory.{IsFile}
use adbcpp.Sync.Entries.{
  Inode, stat_bytes_v1, stat_bytes_v2, metadata_of, length-stat_bytes_v1, length-stat_bytes_v2,
  read_v1-stat_bytes, read_v2-stat_bytes, is_missing_v1-stat_bytes, is_missing_v2-stat_bytes,
}

-- The metadata as the device sends it.
abbrev pub stat_bytes : Bool → Inode → List ℕ
stat_bytes true n = stat_bytes_v2 n
stat_bytes false n = stat_bytes_v1 n

-- A path that is not there: the second form says so, in the first all is zero.
abbrev pub is_absent : Bool → Inode → Bool
is_absent true n = not (n.problem == 0)
is_absent false n = n.mode == 0 && (n.size == 0 && n.mtime == 0)

abbrev pub found : Bool → Inode → Option FileStat
found v2 n = if is_absent v2 n then none else some (metadata_of n)

stat_body-found :
    (c : Connection) (s : Stream) (limit : ℕ) (v2 : Bool) (path id_bytes : List ℕ) (n : Inode)
    (channel : Channel)
    → Supplies c s limit (id_bytes ++ (stat_bytes v2 n ++ [])) channel
    → IsFile v2 n
    → length id_bytes ≡ 4
    → length path ≤ max_path_length
    → 1040 ≤ c.peer_max_data
    → (after : Channel) × (stat_body v2 path channel ≡ (ok (found v2 n), after))
unfolding stat_body write_path_request
stat_body-found c s limit true path id_bytes n channel u h e p m =
    let size = length-path_request stat_v2 path in
    let tape = id_bytes ++ (stat_bytes_v2 n ++ []) in
    let (a, ra, ua) =
      write-Supplies c s limit tape (path_request stat_v2 path) channel u (omega (arith, size))
        (omega (arith, size)) in
    let (b, rb, ub) = read-front c s limit 4 id_bytes (stat_bytes_v2 n ++ []) a ua e in
    let (f, rf, uf) =
      read-front c s limit 68 (stat_bytes_v2 n) [] b ub (length-stat_bytes_v2 n h) in
    let (z, rz, uz) = quit-Supplies c s limit [] f uf (omega arith) in
    let missing : is_missing_v2 (stat_bytes_v2 n) ≡ not (n.problem == 0) =
      ap is_missing_v2 (sym (append-nil (stat_bytes_v2 n))) ∙ is_missing_v2-stat_bytes n h [] in
    let read : read_v2 (stat_bytes_v2 n) ≡ metadata_of n =
      ap read_v2 (sym (append-nil (stat_bytes_v2 n))) ∙ read_v2-stat_bytes n h [] in
    (
      z,
      elim (Bool-cases (n.problem == 0)) [
        | inl there ↦ rw (ra, rb, rf, missing, there, read, rz)
        | inr gone ↦ rw (ra, rb, rf, missing, gone, rz)
      ],
    )
stat_body-found c s limit false path id_bytes n channel u h e p m =
    let size = length-path_request stat_v1 path in
    let tape = id_bytes ++ (stat_bytes_v1 n ++ []) in
    let (a, ra, ua) =
      write-Supplies c s limit tape (path_request stat_v1 path) channel u (omega (arith, size))
        (omega (arith, size)) in
    let (b, rb, ub) = read-front c s limit 4 id_bytes (stat_bytes_v1 n ++ []) a ua e in
    let (f, rf, uf) = read-front c s limit 12 (stat_bytes_v1 n) [] b ub (length-stat_bytes_v1 n) in
    let (z, rz, uz) = quit-Supplies c s limit [] f uf (omega arith) in
    let zero : Bool = n.mode == 0 && (n.size == 0 && n.mtime == 0) in
    let missing : is_missing_v1 (stat_bytes_v1 n) ≡ zero =
      ap is_missing_v1 (sym (append-nil (stat_bytes_v1 n))) ∙ is_missing_v1-stat_bytes n [] h in
    let read : read_v1 (stat_bytes_v1 n) ≡ metadata_of n =
      ap read_v1 (sym (append-nil (stat_bytes_v1 n))) ∙ read_v1-stat_bytes n [] h in
    (
      z,
      elim (Bool-cases zero) [
        | inl gone ↦ rw (ra, rb, rf, missing, gone, rz)
        | inr there ↦ rw (ra, rb, rf, missing, there, read, rz)
      ],
    )

-- Where a device accepts the stream and answers with the metadata of a path, and the peer takes
-- requests of 1040 bytes, `stat` returns it, in the form that the device's features select, and
-- nothing exactly if the path is absent: by the error field in the second form, and in the first
-- where mode, size and time are all zero. The id of the answer is not looked at.
pub stat-found :
    (c : Connection) (l : Link) (path id_bytes : List ℕ) (n : Inode)
    → let v2 = supports_feature c (codes "stat_v2") in
      Serves c l sync_service (id_bytes ++ (stat_bytes v2 n ++ []))
      → IsFile v2 n
      → length id_bytes ≡ 4
      → length path ≤ max_path_length
      → 1040 ≤ c.peer_max_data
      → (after : Connection) × (stat path (linked c l) ≡ (ok (found v2 n), after))
unfolding stat supports_feature
stat-found c l path id_bytes n v h e p m =
    let v2 = supports_feature c (codes "stat_v2") in
    let (after, r) =
      with_stream-Serves c l sync_service (id_bytes ++ (stat_bytes v2 n ++ [])) (stat_body v2 path)
        (found v2 n) v
        (λ s limit channel u.
          stat_body-found (numbered c) s limit v2 path id_bytes n channel u h e p m) in
    (after, rw (not_lt→ltb max_path_length (length path) p) r)
