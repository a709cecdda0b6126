-- ===== src/Sync/Upload.antt =====
-- What `push` of src/sync.cpp sends for the contents of a file.
use adbcpp.Base.{
  ℕ, zero, suc, ◌+◌, ◌≤◌, ◌<◌, ◌≡◌, refl, sym, ap, ◌∙◌, List, [], ◌∷◌, ◌++◌, append_assoc,
  append-nil, arith, length, All, IsU32, length-take, length-drop, take-append-drop, min,
}
use adbcpp.Outcome.{Result, ok, err, error, invalid_argument}
use adbcpp.Transport.{Link}
use adbcpp.Protocol.ByteOrder.{write_u32_le}
use adbcpp.Session.Sending.{sending, transfers, flatten}
use adbcpp.Connection.{Connection}
use adbcpp.Stream.{Stream, Channel}
use adbcpp.Stream.Writing.{wrte_frame, write-linked, write-refused}
use adbcpp.Stream.Steps.{chan}
use adbcpp.Sync.Wire.{data_id, max_chunk_size}
use adbcpp.Sync.Push.{sync_header, send_chunks, next_chunk, unread}

-- A chunk with its header in front.
abbrev pub block : List ℕ → List ℕ
block bytes = sync_header data_id (length bytes) ++ bytes

-- The transfers of blocks in order.
abbrev pub block_transfers : Stream → List (List ℕ) → List (List ℕ)
block_transfers s [] = []
block_transfers s (bytes ∷ rest) = transfers (wrte_frame s (block bytes)) ++ block_transfers s rest

-- A chunk of a file: not empty, and no longer than the protocol allows.
abbrev pub IsChunk : List ℕ → Type 0
IsChunk bytes = (0 < length bytes) × (length bytes ≤ max_chunk_size)

pub next_chunk-unread : (contents : List ℕ) → next_chunk contents ++ unread contents ≡ contents
unfolding next_chunk unread
next_chunk-unread contents = take-append-drop max_chunk_size contents

length-next_chunk :
    (contents : List ℕ) → length (next_chunk contents) ≡ min max_chunk_size (length contents)
unfolding next_chunk
length-next_chunk contents = length-take max_chunk_size contents

pub next_chunk-IsChunk : (b : ℕ) (bs : List ℕ) → IsChunk (next_chunk (b ∷ bs))
unfolding next_chunk
next_chunk-IsChunk b bs =
    let e = length-take max_chunk_size (b ∷ bs) in (omega (arith, e), omega (arith, e))

pub length-unread : (b : ℕ) (bs : List ℕ) → length (unread (b ∷ bs)) ≤ length bs
unfolding unread
length-unread b bs = omega (arith, length-drop max_chunk_size (b ∷ bs))

pub length-block : (bytes : List ℕ) → length (block bytes) ≡ 8 + length bytes
unfolding write_u32_le
length-block bytes = omega arith

-- How the contents were sent, with the result of the operation.
pub record Uploads (c : Connection) (l : Link) (s : Stream) (contents : List ℕ)
    (outcome : Result (Unit {0}) × Channel) : Type 0 where
  pub chunks : List (List ℕ)
  pub complete : flatten chunks ≡ contents
  pub sized : All IsChunk chunks
  pub runs : outcome ≡ (ok tt, chan c (sending l (block_transfers s chunks)) s)

-- A round that sends a block, with what the form makes of the chunk.
pub send_round :
    (compress : List ℕ → Result (List ℕ)) (fuel : ℕ) (c : Connection) (l : Link) (s : Stream)
    (b : ℕ) (bs bytes : List ℕ)
    → l.verdicts ≡ []
    → compress (next_chunk (b ∷ bs)) ≡ ok bytes
    → 8 + length bytes ≤ c.peer_max_data
    → IsU32 (8 + length bytes)
    → send_chunks compress (suc fuel) (b ∷ bs) (chan c l s)
      ≡ send_chunks compress fuel
          (unread (b ∷ bs))
          (chan c (sending l (transfers (wrte_frame s (block bytes)))) s)
unfolding send_chunks
send_round compress fuel c l s b bs bytes v k h u =
    let e = length-block bytes in
    rw (k, write-linked c l s (block bytes) v (omega arith) (omega arith))

upload :
    (fuel : ℕ) (c : Connection) (l : Link) (s : Stream) (contents : List ℕ)
    → l.verdicts ≡ []
    → max_chunk_size + 8 ≤ c.peer_max_data
    → length contents ≤ fuel
    → Uploads c l s contents (send_chunks ok fuel contents (chan c l s))
unfolding send_chunks
upload zero c l s [] v h f = record {
  chunks = [];
  complete = refl;
  sized = tt;
  runs = ap (λ t. (ok tt, chan c (record l { written = t }) s)) (sym (append-nil l.written));
}
upload (suc fuel) c l s [] v h f = record {
  chunks = [];
  complete = refl;
  sized = tt;
  runs = ap (λ t. (ok tt, chan c (record l { written = t }) s)) (sym (append-nil l.written));
}
upload zero c l s (b ∷ bs) v h f = absurd (omega arith)
upload (suc fuel) c l s (b ∷ bs) v h f =
    let bytes = next_chunk (b ∷ bs) in
    let (_, small) = next_chunk-IsChunk b bs in
    let next =
      upload fuel c (sending l (transfers (wrte_frame s (block bytes)))) s (unread (b ∷ bs)) v h
        (omega (arith, length-unread b bs)) in
    record {
      chunks = bytes ∷ next.chunks;
      complete = ap (λ t. bytes ++ t) next.complete ∙ next_chunk-unread (b ∷ bs);
      sized = (next_chunk-IsChunk b bs, next.sized);
      runs =
          send_round ok fuel c l s b bs bytes v refl (omega (arith, small)) (omega (arith, small))
          ∙ next.runs
          ∙ ap (λ t. (ok tt, chan c (record l { written = t }) s))
              (append_assoc l.written (transfers (wrte_frame s (block bytes)))
                (block_transfers s next.chunks));
    }

-- On a link that takes every write, to a peer that accepts blocks of 64 KiB and their headers, the
-- loop sends the whole file and works: in order, each in a WRTE of its own, blocks whose chunks are
-- not empty, are 64 KiB at most and together are the contents.
pub send_chunks-Uploads :
    (c : Connection) (l : Link) (s : Stream) (contents : List ℕ)
    → l.verdicts ≡ []
    → max_chunk_size + 8 ≤ c.peer_max_data
    → Uploads c l s contents (send_chunks ok (length contents) contents (chan c l s))
send_chunks-Uploads c l s contents v h = upload (length contents) c l s contents v h (omega arith)

-- A peer whose payloads are smaller than the first block of a file, chunk and header, gets nothing of
-- it: the push fails before anything of the file is sent.
pub send_chunks-refused :
    (c : Connection) (l : Link) (s : Stream) (contents : List ℕ)
    → 0 < length contents
    → c.peer_max_data < 8 + min max_chunk_size (length contents)
    → send_chunks ok (length contents) contents (chan c l s) ≡ (
      err (error invalid_argument "the write is larger than the negotiated maximum payload"),
      chan c l s,
    )
unfolding send_chunks
send_chunks-refused c l s [] p h = absurd (omega arith)
send_chunks-refused c l s (b ∷ bs) p h =
    let e = length-block (next_chunk (b ∷ bs)) in
    let n = length-next_chunk (b ∷ bs) in
    rw (write-refused c l s (block (next_chunk (b ∷ bs))) (omega arith))
