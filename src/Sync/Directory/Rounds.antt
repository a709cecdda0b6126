-- ===== src/Sync/Directory/Rounds.antt =====
-- `list` of src/sync.cpp on a device that sends the entries of a directory.
use adbcpp.Base.{
  ℕ, zero, suc, ◌≤◌, ◌<◌, ◌≡◌, refl, sym, ap, ◌∙◌, List, [], ◌∷◌, ◌++◌, append_assoc, append-nil,
  arith, Bool, if◌then◌else◌, All, length, length-append, not_lt→ltb, ==_refl, codes,
}
use mathlib.Core.Path.{subst}
use adbcpp.Outcome.{ok}
use adbcpp.Protocol.ByteOrder.{write_u32_le}
use adbcpp.Transport.{Link}
use adbcpp.Connection.{Connection, supports_feature}
use adbcpp.Stream.Steps.{linked}
use adbcpp.Stream.Opening.{numbered}
use adbcpp.Stream.Writing.{write-Supplies}
use adbcpp.Stream.Serving.{Serves, with_stream-Serves}
use adbcpp.Stream.{Stream, Channel}
use adbcpp.Stream.Supply.{Supplies, length-tape}
use adbcpp.Stream.Supply.Filling.{read-front}
use adbcpp.Sync.Wire.{
  dent_v1, dent_v2, done_id, list_v1, list_v2, max_name_length, max_path_length, sync_service,
  path_request, write_path_request,
}
use adbcpp.Sync.Listing.{DirEntry, read_entries, list_body, list, sync_rounds}
use adbcpp.Sync.Replies.{four, word, quit-Supplies, length-path_request}
use adbcpp.Sync.Directory.{
  Dent, IsDent, dent_body, dent_bytes, dents_bytes, listed, listing, length-dent_body,
  name-dent_body, add_entry-dent_body, dent_id-IsU32, dent_id_other,
}

module _ (c : Connection) (s : Stream) (limit : ℕ) (v2 : Bool) where
  -- A round that meets an entry.
  dent_round :
      (fuel : ℕ) (d : Dent) (entries : List DirEntry) (rest : List ℕ) (channel : Channel)
      → IsDent v2 d
      → Supplies c s limit (dent_bytes v2 d ++ rest) channel
      → (after : Channel) × (read_entries (suc fuel) v2 entries channel
          ≡ read_entries fuel v2 (entries ++ listed v2 d) after)
        × Supplies c s limit rest after
  unfolding read_entries
  dent_round fuel d entries rest channel h u =
      let id : ℕ = if v2 then dent_v2 else dent_v1 in
      let id_bytes = write_u32_le id in
      let body = dent_body v2 d in
      let (a, ra, ua) =
        read-front c s limit 4 id_bytes (body ++ (d.name ++ rest)) channel
          (subst (λ t. Supplies c s limit t channel)
            (append_assoc id_bytes (body ++ d.name) rest
              ∙ ap (λ t. id_bytes ++ t) (append_assoc body d.name rest))
            u)
          (four id) in
      let (b, rb, ub) =
        read-front c s limit (if v2 then 72 else 16) body (d.name ++ rest) a ua
          (length-dent_body v2 d h) in
      let (e, re, ue) = read-front c s limit (length d.name) d.name rest b ub refl in
      let (not_fail, not_done) = dent_id_other v2 in
      (
        e,
        rw (
          ra,
          word id (dent_id-IsU32 v2),
          not_fail,
          rb,
          not_done,
          ==_refl id,
          name-dent_body v2 d h,
          not_lt→ltb max_name_length (length d.name) h.name,
          re,
          add_entry-dent_body v2 d entries h,
        ),
        ue,
      )

  -- A round that meets the end, which is as long as an entry without its name.
  end_round :
      (fuel : ℕ) (filler : List ℕ) (entries : List DirEntry) (rest : List ℕ) (channel : Channel)
      → length filler ≡ (if v2 then 72 else 16)
      → Supplies c s limit (write_u32_le done_id ++ (filler ++ rest)) channel
      → (after : Channel) × (read_entries (suc fuel) v2 entries channel ≡ (ok entries, after))
        × Supplies c s limit rest after
  unfolding read_entries
  end_round fuel filler entries rest channel h u =
      let (a, ra, ua) =
        read-front c s limit 4 (write_u32_le done_id) (filler ++ rest) channel u (four done_id) in
      let (b, rb, ub) = read-front c s limit (if v2 then 72 else 16) filler rest a ua h in
      (b, rw (ra, word done_id (omega arith), rb), ub)

  dent_rounds :
      (fuel : ℕ) (ds : List Dent) (filler : List ℕ) (entries : List DirEntry) (rest : List ℕ)
      (channel : Channel)
      → All (IsDent v2) ds
      → length filler ≡ (if v2 then 72 else 16)
      → length ds < fuel
      → Supplies c s limit (dents_bytes v2 ds ++ (write_u32_le done_id ++ (filler ++ rest))) channel
      → (after : Channel) × (read_entries fuel v2 entries channel
          ≡ (ok (entries ++ listing v2 ds), after))
        × Supplies c s limit rest after
  dent_rounds zero ds filler entries rest channel h f n u = absurd (omega arith)
  dent_rounds (suc fuel) [] filler entries rest channel h f n u =
      let (after, r, left) = end_round fuel filler entries rest channel f u in
      (after, r ∙ ap (λ es. (ok es, after)) (sym (append-nil entries)), left)
  dent_rounds (suc fuel) (d ∷ ds) filler entries rest channel (h, hs) f n u =
      let tail = write_u32_le done_id ++ (filler ++ rest) in
      let (a, r, ua) = dent_round fuel d entries (dents_bytes v2 ds ++ tail) channel h (
        subst (λ t. Supplies c s limit t channel)
          (append_assoc (dent_bytes v2 d) (dents_bytes v2 ds) tail) u) in
      let (b, q, ub) =
        dent_rounds fuel ds filler (entries ++ listed v2 d) rest a hs f (omega arith) ua in
      (b, r ∙ q ∙ ap (λ es. (ok es, b)) (append_assoc entries (listed v2 d) (listing v2 ds)), ub)

length-dents_bytes : (v2 : Bool) (ds : List Dent) → length ds ≤ length (dents_bytes v2 ds)
length-dents_bytes v2 [] = omega arith
length-dents_bytes v2 (d ∷ ds) =
    let id : ℕ = if v2 then dent_v2 else dent_v1 in
    omega (
      arith,
      length-dents_bytes v2 ds,
      length-append (dent_bytes v2 d) (dents_bytes v2 ds),
      length-append (write_u32_le id) (dent_body v2 d ++ d.name),
      four id,
    )

-- A directory as the device sends it.
abbrev pub sent_directory : Bool → List Dent → List ℕ → List ℕ
sent_directory v2 ds filler = dents_bytes v2 ds ++ (write_u32_le done_id ++ filler)

list_body-listing :
    (c : Connection) (s : Stream) (limit : ℕ) (v2 : Bool) (path : List ℕ) (ds : List Dent)
    (filler : List ℕ) (channel : Channel)
    → Supplies c s limit (sent_directory v2 ds filler) channel
    → All (IsDent v2) ds
    → length filler ≡ (if v2 then 72 else 16)
    → length path ≤ max_path_length
    → 1040 ≤ c.peer_max_data
    → (after : Channel) × (list_body v2 path channel ≡ (ok (listing v2 ds), after))
      × Supplies c s limit [] after
unfolding list_body write_path_request
list_body-listing c s limit v2 path ds filler channel u h f p m =
    let id : ℕ = if v2 then list_v2 else list_v1 in
    let size = length-path_request id path in
    let (a, ra, ua) =
      write-Supplies c s limit (sent_directory v2 ds filler) (path_request id path) channel u
        (omega (arith, size)) (omega (arith, size)) in
    let tail = write_u32_le done_id ++ filler in
    let enough : length ds < sync_rounds a =
      omega
        (arith, length-tape ua, length-dents_bytes v2 ds, length-append (dents_bytes v2 ds) tail) in
    let same : sent_directory v2 ds filler
        ≡ dents_bytes v2 ds ++ (write_u32_le done_id ++ (filler ++ [])) =
      ap (λ t. dents_bytes v2 ds ++ (write_u32_le done_id ++ t)) (sym (append-nil filler)) in
    let (b, rb, ub) =
      dent_rounds c s limit v2 (sync_rounds a) ds filler [] [] a h f enough
        (subst (λ t. Supplies c s limit t a) same ua) in
    let (z, rz, uz) = quit-Supplies c s limit [] b ub (omega arith) in (z, rw (ra, rb, rz), uz)

-- Where a device accepts the stream and sends a directory, and the peer takes requests of 1040 bytes,
-- `list` returns its entries in order with the metadata that the device reported, in whatever WRTEs
-- the bytes came. The form is the one that the device's features select, and in the second form the
-- entries that the device could not read are left out.
pub list-listing :
    (c : Connection) (l : Link) (path : List ℕ) (ds : List Dent) (filler : List ℕ)
    → let v2 = supports_feature c (codes "ls_v2") in
      Serves c l sync_service (sent_directory v2 ds filler)
      → All (IsDent v2) ds
      → length filler ≡ (if v2 then 72 else 16)
      → length path ≤ max_path_length
      → 1040 ≤ c.peer_max_data
      → (after : Connection) × (list path (linked c l) ≡ (ok (listing v2 ds), after))
unfolding list supports_feature
list-listing c l path ds filler v h f p m =
    let v2 = supports_feature c (codes "ls_v2") in
    let (after, r) =
      with_stream-Serves c l sync_service (sent_directory v2 ds filler) (list_body v2 path)
        (listing v2 ds) v
        (λ s limit channel u.
          let (z, q, w) =
            list_body-listing (numbered c) s limit v2 path ds filler channel u h f p m in
          (z, q)) in
    (after, rw (not_lt→ltb max_path_length (length path) p) r)
