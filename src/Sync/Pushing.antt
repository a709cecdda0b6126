-- ===== src/Sync/Pushing.antt =====
-- `push_v1` and `push_v2` of src/sync.cpp on a device that answers the transfer.
use adbcpp.Base.{
  ℕ, zero, suc, ◌+◌, ◌/◌, ◌%◌, ◌≤◌, ◌≡◌, refl, sym, ap, ◌∙◌, List, [], ◌∷◌, ◌++◌, append_assoc,
  append-nil, arith, Bool-cases, true, ◌==◌, Option, none, some, inl, inr, IsU32, length,
  length-append,
}
use mathlib.Core.Path.{subst}
use adbcpp.Outcome.{Result, ok, err, device}
use adbcpp.Outcome.Exec.{◌>>◌}
use adbcpp.Transport.{Link}
use adbcpp.Protocol.ByteOrder.{write_u32_le, read_u32_le}
use adbcpp.Connection.{Connection, Build}
use adbcpp.Stream
use adbcpp.Stream.{Stream, Channel}
use adbcpp.Stream.Steps.{linked}
use adbcpp.Stream.Opening.{numbered}
use adbcpp.Stream.Supply.{Supplies}
use adbcpp.Stream.Supply.Filling.{read-front}
use adbcpp.Stream.Writing.{write-Supplies}
use adbcpp.Stream.Serving.{Serves, with_stream-result}
use adbcpp.Sync.Wire.{
  okay_id, fail_id, send_v1, send_v2, done_id, sync_service, path_request, write_path_request,
  write_send_v2, sync_fail, read_status, write_quit,
}
use adbcpp.Sync.Codec.{CompressionCodec, Codecs, sync_flag_of, compress_chunk}
use adbcpp.Sync.Clock.{local_mtime, as_u32}
use adbcpp.Sync.Push.{
  LocalFile, local_mode, prepend_digits, to_string, sync_header, send_chunks, next_chunk, unread,
  send_file, push_v1, push_v2, push_by,
}
use adbcpp.Sync.Upload.{block, length-block, IsChunk, next_chunk-IsChunk, length-unread}
use adbcpp.Sync.Replies.{reads_header, word, quit-Supplies, four, length-path_request}

-- What the device says of a transfer, and its bytes.
pub data Verdict : Type 0 where
  stored : ℕ → Verdict
  refused : List ℕ → Verdict

abbrev pub verdict_bytes : Verdict → List ℕ
verdict_bytes (stored n) = sync_header okay_id n
verdict_bytes (refused reason) = sync_header fail_id (length reason) ++ reason

abbrev pub verdict_result : Verdict → Result (Unit {0})
verdict_result (stored n) = ok tt
verdict_result (refused reason) =
    err (record { code = device; message = "the sync request failed: "; detail = reason })

-- A reason whose length fits into a word.
abbrev pub IsVerdict : Verdict → Type 0
IsVerdict (stored n) = Unit
IsVerdict (refused reason) = IsU32 (length reason)

-- What a form makes of each chunk fits into one message of the peer, with its header.
abbrev pub Fits : (List ℕ → Result (List ℕ)) → ℕ → Type 0
Fits compress limit =
    (chunk : List ℕ)
    → IsChunk chunk
    → (bytes : List ℕ) × (compress chunk ≡ ok bytes) × (8 + length bytes ≤ limit)

length-prepend_digits :
    (fuel n : ℕ) (text : List ℕ) → length (prepend_digits fuel n text) ≤ fuel + length text
length-prepend_digits zero n text = omega arith
length-prepend_digits (suc fuel) n text =
    let more = length-prepend_digits fuel (n / 10) ((48 + n % 10) ∷ text) in
    elim (Bool-cases (n / 10 == 0)) [
      | inl e ↦ rw e (omega arith)
      | inr e ↦ rw e (omega (arith, more))
    ]

length-to_string : (n : ℕ) → length (to_string n) ≤ 10
unfolding to_string
length-to_string n = omega (arith, length-prepend_digits 10 n [])

module _ (c : Connection) (s : Stream) (limit : ℕ) (u32 : IsU32 c.peer_max_data) where
  -- The loop over the chunks reads nothing.
  chunks_Supplies :
      (compress : List ℕ → Result (List ℕ)) (tape : List ℕ) (fuel : ℕ) (contents : List ℕ)
      (d : Channel)
      → Fits compress c.peer_max_data
      → length contents ≤ fuel
      → Supplies c s limit tape d
      → (after : Channel) × (send_chunks compress fuel contents d ≡ (ok tt, after))
        × Supplies c s limit tape after
  unfolding send_chunks
  chunks_Supplies compress tape zero [] d fits f u = (d, refl, u)
  chunks_Supplies compress tape (suc fuel) [] d fits f u = (d, refl, u)
  chunks_Supplies compress tape zero (b ∷ bs) d fits f u = absurd (omega arith)
  chunks_Supplies compress tape (suc fuel) (b ∷ bs) d fits f u =
      let (bytes, k, small) = fits (next_chunk (b ∷ bs)) (next_chunk-IsChunk b bs) in
      let e = length-block bytes in
      let (x, rx, ux) =
        write-Supplies c s limit tape (block bytes) d u (omega (arith, e))
          (omega (arith, e, u32)) in
      let (y, ry, uy) =
        chunks_Supplies compress tape fuel (unread (b ∷ bs)) x fits
          (omega (arith, length-unread b bs)) ux in
      (y, rw (k, rx, ry), uy)

  -- The status, and the QUIT where it is good.
  status_ends :
      (verdict : Verdict) (d : Channel)
      → IsVerdict verdict
      → 8 ≤ c.peer_max_data
      → Supplies c s limit (verdict_bytes verdict ++ []) d
      → (after : Channel) × ((read_status >> write_quit) d ≡ (verdict_result verdict, after))
  unfolding read_status sync_fail
  status_ends (stored n) d h m u =
      let header = reads_header c s limit okay_id n [] d u in
      let (z, rz, _) = quit-Supplies c s limit [] header.after header.left m in
      (z, rw (header.id_runs, word okay_id (omega arith), header.size_runs, rz))
  status_ends (refused reason) d h m u =
      let header = reads_header c s limit fail_id (length reason) (reason ++ []) d (
        subst (λ t. Supplies c s limit t d)
          (append_assoc (sync_header fail_id (length reason)) reason []) u) in
      let small : length reason % 4294967296 ≡ length reason = omega (arith, h) in
      let size : read_u32_le (write_u32_le (length reason % 4294967296)) ≡ length reason =
        ap (λ n. read_u32_le (write_u32_le n)) small ∙ word (length reason) h in
      let (z, rz, _) =
        read-front c s limit (length reason) reason [] header.after header.left refl in
      (z, rw (header.id_runs, word fail_id (omega arith), header.size_runs, size, rz))

  -- What follows the request.
  send_file_ends :
      (compress : List ℕ → Result (List ℕ)) (file : LocalFile) (verdict : Verdict) (d : Channel)
      → Fits compress c.peer_max_data
      → file.opens ≡ true
      → file.ends_well ≡ true
      → IsVerdict verdict
      → 8 ≤ c.peer_max_data
      → Supplies c s limit (verdict_bytes verdict ++ []) d
      → (after : Channel) × (send_file compress file d ≡ (verdict_result verdict, after))
  unfolding send_file
  send_file_ends compress file verdict d fits o w h m u =
      let tape = verdict_bytes verdict ++ [] in
      let (x, rx, ux) =
        chunks_Supplies compress tape (length file.contents) file.contents d fits (omega arith) u in
      let mtime = as_u32 (local_mtime file.clocks) in
      let size : length (sync_header done_id mtime) ≡ 8 = omega (
        arith,
        length-append (write_u32_le done_id) (write_u32_le (mtime % 4294967296)),
        four done_id,
        four (mtime % 4294967296),
      ) in
      let (y, ry, uy) =
        write-Supplies c s limit tape (sync_header done_id mtime) x ux (omega (arith, size))
          (omega (arith, size)) in
      let (z, rz) = status_ends verdict y h m uy in (z, rw (o, rx, w, ry) rz)

  -- The request, and what follows.
  request_ends :
      (request : List ℕ) (compress : List ℕ → Result (List ℕ)) (file : LocalFile)
      (verdict : Verdict) (d : Channel)
      → Fits compress c.peer_max_data
      → file.opens ≡ true
      → file.ends_well ≡ true
      → IsVerdict verdict
      → length request ≤ c.peer_max_data
      → 8 ≤ c.peer_max_data
      → Supplies c s limit (verdict_bytes verdict) d
      → (after : Channel) × ((Stream.write request >> send_file compress file) d
          ≡ (verdict_result verdict, after))
  request_ends request compress file verdict d fits o w h n m u =
      let tape = verdict_bytes verdict ++ [] in
      let (x, rx, ux) =
        write-Supplies c s limit tape request d
          (subst (λ t. Supplies c s limit t d) (sym (append-nil (verdict_bytes verdict))) u) n
          (omega (arith, n, u32)) in
      let (y, ry) = send_file_ends compress file verdict x fits o w h m ux in (y, rw (rx, ry))

-- What the form makes of a chunk.
abbrev pub form_of : Build → Codecs → Option CompressionCodec → List ℕ → Result (List ℕ)
form_of b libraries none = ok
form_of b libraries (some codec) = compress_chunk b libraries codec

-- Where a device serves the transfer and answers it, the local file can be read, and the request and
-- what the form makes of each chunk fit into a message: a push in either form returns what the device says, with
-- its reason if it refuses the file, whatever the file and however the answer is cut into WRTEs.
pub push_by-verdict :
    (b : Build) (libraries : Codecs) (choice : Option CompressionCodec) (c : Connection) (l : Link)
    (file : LocalFile) (destination : List ℕ) (verdict : Verdict)
    → Serves c l sync_service (verdict_bytes verdict)
    → file.opens ≡ true
    → file.ends_well ≡ true
    → IsVerdict verdict
    → Fits (form_of b libraries choice) c.peer_max_data
    → IsU32 c.peer_max_data
    → 20 + length destination ≤ c.peer_max_data
    → (after : Connection) × (push_by b libraries file destination choice (linked c l)
        ≡ (verdict_result verdict, after))
unfolding push_v1 push_v2 write_path_request write_send_v2
push_by-verdict b libraries none c l file destination verdict v o w h fits u m =
    let mode = to_string (local_mode file) in
    let path = destination ++ b',' ∷ mode in
    with_stream-result c l sync_service (verdict_bytes verdict)
      (Stream.write (path_request send_v1 path) >> send_file ok file) (verdict_result verdict) v
      (λ s limit d k.
        request_ends (numbered c) s limit u (path_request send_v1 path) ok file verdict d fits o w h
          (omega (
            arith,
            m,
            length-path_request send_v1 path,
            length-append destination (b',' ∷ mode),
            length-to_string (local_mode file),
          ))
          (omega (arith, m)) k)
push_by-verdict b libraries (some codec) c l file destination verdict v o w h fits u m =
    let words = write_u32_le (local_mode file) ++ write_u32_le (sync_flag_of codec) in
    let setup = write_u32_le send_v2 ++ words in
    with_stream-result c l sync_service (verdict_bytes verdict)
      (Stream.write (path_request send_v2 destination ++ setup)
        >> send_file (compress_chunk b libraries codec) file)
      (verdict_result verdict) v
      (λ s limit d k.
        request_ends (numbered c) s limit u (path_request send_v2 destination ++ setup)
          (compress_chunk b libraries codec) file verdict d fits o w h
          (omega (
            arith,
            m,
            length-path_request send_v2 destination,
            length-append (path_request send_v2 destination) setup,
            length-append (write_u32_le send_v2) words,
            length-append (write_u32_le (local_mode file)) (write_u32_le (sync_flag_of codec)),
            four send_v2,
            four (local_mode file),
            four (sync_flag_of codec),
          ))
          (omega (arith, m)) k)
