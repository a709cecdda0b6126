-- ===== src/Sync/Download.antt =====
-- What `pull` of src/sync.cpp writes to the local file for the chunks that the device sends.
use adbcpp.Base.{
  ℕ, zero, suc, ◌≤◌, ◌<◌, ◌≡◌, refl, sym, ap, ◌∙◌, List, [], ◌∷◌, ◌++◌, append_assoc, append-nil,
  arith, All, IsU32, length, not_lt→ltb, ◌%◌,
}
use mathlib.Core.Path.{subst}
use adbcpp.Outcome.{ok}
use adbcpp.Connection.{Connection}
use adbcpp.Stream.{Stream, Channel}
use adbcpp.Stream.Supply.{Supplies}
use adbcpp.Stream.Supply.Filling.{read-front}
use adbcpp.Sync.Wire.{data_id, done_id}
use adbcpp.Sync.Push.{sync_header}
use adbcpp.Sync.Pull.{Sink, Transfer, Form, receive_chunks, write_output}
use adbcpp.Sync.Upload.{block}
use adbcpp.Sync.Replies.{word, reads_header}

-- The blocks of a file in order.
abbrev pub blocks : List (List ℕ) → List ℕ
blocks [] = []
blocks (bytes ∷ rest) = block bytes ++ blocks rest

-- The sink with more bytes, where every write succeeds.
abbrev pub appended : Sink → List ℕ → Sink
appended k bytes = record k { contents = k.contents ++ bytes }

-- How a form decodes chunks: each of them in turn, with the bytes that come out.
pub data Decodes {D : Type 0} (form : Form D) : List (List ℕ) → D → List ℕ → D → Type 0 where
  over : (d : D) → Decodes form [] d [] d
  next :
      (chunk : List ℕ) (chunks : List (List ℕ)) (d e f : D) (bytes more : List ℕ)
      → form.decode_chunk chunk d ≡ (ok bytes, e)
      → length chunk ≤ form.limit
      → Decodes form chunks e more f
      → Decodes form (chunk ∷ chunks) d (bytes ++ more) f

module _ {D : Type 0} (form : Form D) (c : Connection) (s : Stream) (limit : ℕ) where
  -- A round that meets a block.
  chunk_round :
      (fuel : ℕ) (t : Transfer D) (chunk rest bytes : List ℕ) (e : D)
      → Supplies c s limit (block chunk ++ rest) t.channel
      → t.sink.verdicts ≡ []
      → IsU32 (length chunk)
      → length chunk ≤ form.limit
      → form.decode_chunk chunk t.decoder ≡ (ok bytes, e)
      → (after : Channel) × (receive_chunks form (suc fuel) t
          ≡ receive_chunks form fuel
              (record { channel = after; sink = appended t.sink bytes; decoder = e }))
        × Supplies c s limit rest after
  unfolding receive_chunks write_output
  chunk_round fuel t chunk rest bytes e u v w h k =
      let header = reads_header c s limit data_id (length chunk) (chunk ++ rest) t.channel (
        subst (λ t'. Supplies c s limit t' t.channel)
          (append_assoc (sync_header data_id (length chunk)) chunk rest) u) in
      let size : length chunk % 4294967296 ≡ length chunk = omega arith in
      let (f, rf, uf) =
        read-front c s limit (length chunk) chunk rest header.after header.left refl in
      (
        f,
        rw (
          header.id_runs,
          word data_id (omega arith),
          header.size_runs,
          size,
          word (length chunk) w,
          not_lt→ltb form.limit (length chunk) h,
          rf,
          k,
          v,
        ),
        uf,
      )

  -- A round that meets the end of the file.
  done_round :
      (fuel : ℕ) (t : Transfer D) (mtime : ℕ) (rest : List ℕ)
      → Supplies c s limit (sync_header done_id mtime ++ rest) t.channel
      → (after : Channel) × (receive_chunks form (suc fuel) t
          ≡ (ok tt, record t { channel = after }))
        × Supplies c s limit rest after
  unfolding receive_chunks
  done_round fuel t mtime rest u =
      let header = reads_header c s limit done_id mtime rest t.channel u in
      (header.after, rw (header.id_runs, word done_id (omega arith), header.size_runs), header.left)

  -- The loop on a file, with a round for each block and one for its end.
  pub chunk_rounds :
      (fuel : ℕ) (mtime : ℕ) (rest : List ℕ) (channel : Channel) (sink : Sink)
      {chunks : List (List ℕ)} {d f : D} {out : List ℕ}
      → Decodes form chunks d out f
      → Supplies c s limit (blocks chunks ++ (sync_header done_id mtime ++ rest)) channel
      → sink.verdicts ≡ []
      → All (λ chunk. IsU32 (length chunk)) chunks
      → length chunks < fuel
      → (after : Channel) × (receive_chunks form fuel
            (record { channel = channel; sink = sink; decoder = d })
          ≡ (ok tt, record { channel = after; sink = appended sink out; decoder = f }))
        × Supplies c s limit rest after
  chunk_rounds zero mtime rest channel sink (over d) u v w n = absurd (omega arith)
  chunk_rounds zero mtime rest channel sink (next chunk chunks d e f bytes more k l h) u v w n =
      absurd (omega arith)
  chunk_rounds (suc fuel) mtime rest channel sink (over d) u v w n =
      let (after, r, left) =
        done_round fuel (record { channel = channel; sink = sink; decoder = d }) mtime rest u in
      (
        after,
        r
            ∙ ap
                (λ bytes. (
                  ok tt,
                  record { channel = after; sink = record sink { contents = bytes }; decoder = d },
                ))
                (sym (append-nil sink.contents)),
        left,
      )
  chunk_rounds (suc fuel) mtime rest channel sink (next chunk chunks d e f bytes more k l h) u v
        (w, ws) n =
      let tail = sync_header done_id mtime ++ rest in
      let (a, r, ua) =
        chunk_round fuel (record { channel = channel; sink = sink; decoder = d }) chunk
          (blocks chunks ++ tail) bytes e
          (subst (λ t. Supplies c s limit t channel)
            (append_assoc (block chunk) (blocks chunks) tail) u)
          v w l k in
      let (b, q, ub) =
        chunk_rounds fuel mtime rest a (appended sink bytes) h ua v ws (omega arith) in
      (
        b,
        r
            ∙ q
            ∙ ap
                (λ t.
                  (ok tt, record { channel = b; sink = record sink { contents = t }; decoder = f }))
                (append_assoc sink.contents bytes more),
        ub,
      )
