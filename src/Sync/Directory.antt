-- ===== src/Sync/Directory.antt =====
-- The entries of a directory as the device sends them, and what src/sync.cpp makes of each.
pub mod Rounds
use adbcpp.Base.{
  ℕ, zero, suc, ◌+◌, ◌≤◌, ◌<◌, ◌≡◌, refl, sym, ap, ◌∙◌, List, [], ◌∷◌, ◌++◌, append_assoc,
  append-nil, arith, Bool, true, false, ◌==◌, if◌then◌else◌, All, IsU32, length, length-append,
  drop, drop-append, not_lt→ltb, ==_refl, codes, Bool-cases, inl, inr,
}
use mathlib.Core.Path.{subst}
use adbcpp.Outcome.{Result, ok}
use adbcpp.Protocol.ByteOrder.{write_u32_le, read_u32_le}
use adbcpp.Transport.{Link}
use adbcpp.Connection.{Connection, supports_feature}
use adbcpp.Stream.Steps.{linked}
use adbcpp.Stream.Opening.{numbered}
use adbcpp.Stream.Writing.{write-Supplies}
use adbcpp.Stream.Serving.{Serves, with_stream-Serves}
use adbcpp.Stream
use adbcpp.Stream.{Stream, Channel}
use adbcpp.Stream.Supply.{Supplies, length-tape}
use adbcpp.Stream.Supply.Filling.{read-front}
use adbcpp.Sync.Wire.{
  dent_v1, dent_v2, done_id, fail_id, list_v1, list_v2, max_name_length, max_path_length,
  sync_service, path_request, write_path_request,
}
use adbcpp.Sync.Listing.{DirEntry, add_entry, read_entries, list_body, list, sync_rounds}
use adbcpp.Sync.Replies.{four, word, quit-Supplies, length-path_request}
use adbcpp.Sync.Entries.{
  Inode, IsInode, IsSmall, stat_bytes_v1, stat_bytes_v2, metadata_of, length-stat_bytes_v1,
  length-stat_bytes_v2, read_v1-stat_bytes, read_v2-stat_bytes, is_missing_v2-stat_bytes,
}

-- An entry of a directory of the device.
pub record Dent : Type 0 where
  pub name : List ℕ
  pub inode : Inode

abbrev pub dent_body : Bool → Dent → List ℕ
dent_body true d = stat_bytes_v2 d.inode ++ write_u32_le (length d.name)
dent_body false d = stat_bytes_v1 d.inode ++ write_u32_le (length d.name)

abbrev pub IsFile : Bool → Inode → Type 0
IsFile true n = IsInode n
IsFile false n = IsSmall n

pub record IsDent (v2 : Bool) (d : Dent) : Type 0 where
  pub file : IsFile v2 d.inode
  pub name : length d.name ≤ max_name_length

-- An entry as it is sent, and all of them.
abbrev pub dent_bytes : Bool → Dent → List ℕ
dent_bytes v2 d = write_u32_le (if v2 then dent_v2 else dent_v1) ++ (dent_body v2 d ++ d.name)

abbrev pub dents_bytes : Bool → List Dent → List ℕ
dents_bytes v2 [] = []
dents_bytes v2 (d ∷ ds) = dent_bytes v2 d ++ dents_bytes v2 ds

-- The entries that a listing has: in the second form, those that the device could read.
abbrev pub entry_of : Dent → DirEntry
entry_of d = record { name = d.name; metadata = metadata_of d.inode }

abbrev pub listed : Bool → Dent → List DirEntry
listed true d = if d.inode.problem == 0 then entry_of d ∷ [] else []
listed false d = entry_of d ∷ []

abbrev pub listing : Bool → List Dent → List DirEntry
listing v2 [] = []
listing v2 (d ∷ ds) = listed v2 d ++ listing v2 ds

pub length-dent_body :
    (v2 : Bool) (d : Dent) → IsDent v2 d → length (dent_body v2 d) ≡ (if v2 then 72 else 16)
length-dent_body true d h = omega (
  arith,
  length-append (stat_bytes_v2 d.inode) (write_u32_le (length d.name)),
  length-stat_bytes_v2 d.inode h.file,
  four (length d.name),
)
length-dent_body false d h = omega (
  arith,
  length-append (stat_bytes_v1 d.inode) (write_u32_le (length d.name)),
  length-stat_bytes_v1 d.inode,
  four (length d.name),
)

pub name-dent_body :
    (v2 : Bool) (d : Dent)
    → IsDent v2 d
    → read_u32_le (drop (if v2 then 68 else 12) (dent_body v2 d)) ≡ length d.name
name-dent_body true d h =
    ap read_u32_le (
      drop-append 68 (stat_bytes_v2 d.inode) (write_u32_le (length d.name))
        (length-stat_bytes_v2 d.inode h.file))
    ∙ word (length d.name) (omega (arith, h.name))
name-dent_body false d h =
    ap read_u32_le (
      drop-append 12 (stat_bytes_v1 d.inode) (write_u32_le (length d.name))
        (length-stat_bytes_v1 d.inode))
    ∙ word (length d.name) (omega (arith, h.name))

pub add_entry-dent_body :
    (v2 : Bool) (d : Dent) (entries : List DirEntry)
    → IsDent v2 d
    → add_entry v2 (dent_body v2 d) d.name entries ≡ entries ++ listed v2 d
unfolding add_entry
add_entry-dent_body true d entries h =
    let tail = write_u32_le (length d.name) in
    let missing = is_missing_v2-stat_bytes d.inode h.file tail in
    let read = read_v2-stat_bytes d.inode h.file tail in
    elim (Bool-cases (d.inode.problem == 0)) [
      | inl e ↦ rw (missing, e, read)
      | inr e ↦ rw (missing, e) (sym (append-nil entries))
    ]
add_entry-dent_body false d entries h =
    rw (read_v1-stat_bytes d.inode (write_u32_le (length d.name)) h.file)

-- The id of an entry is none of the others.
pub dent_id-IsU32 : (v2 : Bool) → IsU32 (if v2 then dent_v2 else dent_v1)
dent_id-IsU32 true = omega arith
dent_id-IsU32 false = omega arith

pub dent_id_other :
    (v2 : Bool)
    → (((if v2 then dent_v2 else dent_v1) == fail_id) ≡ false)
      × (((if v2 then dent_v2 else dent_v1) == done_id) ≡ false)
dent_id_other true = (refl, refl)
dent_id_other false = (refl, refl)
