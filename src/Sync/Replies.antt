-- ===== src/Sync/Replies.antt =====
-- The words of the device on a sync stream of src/sync.cpp, and the QUIT that ends it.
use adbcpp.Base.{
  ℕ, ◌+◌, ◌≤◌, ◌≡◌, refl, sym, ap, ◌∙◌, List, [], ◌∷◌, ◌++◌, append_assoc, append-nil, arith, IsU32,
  length, length-append, ◌%◌,
}
use mathlib.Core.Path.{subst}
use adbcpp.Outcome.{ok}
use adbcpp.Protocol.ByteOrder.{write_u32_le, read_u32_le, read_u32_le-write_u32_le}
use adbcpp.Connection.{Connection}
use adbcpp.Stream
use adbcpp.Stream.{Stream, Channel}
use adbcpp.Stream.Supply.{Supplies}
use adbcpp.Stream.Supply.Filling.{read-front}
use adbcpp.Sync.Wire.{quit_id, write_quit, path_request}
use adbcpp.Sync.Push.{sync_header}
use adbcpp.Stream.Writing.{write-Supplies}

pub four : (n : ℕ) → length (write_u32_le n) ≡ 4
unfolding write_u32_le
four n = refl

pub word : (n : ℕ) → IsU32 n → read_u32_le (write_u32_le n) ≡ n
word n u = ap read_u32_le (sym (append-nil (write_u32_le n))) ∙ read_u32_le-write_u32_le n [] u

module _ (c : Connection) (s : Stream) (limit : ℕ) where
  -- The two words of a header, read one after the other.
  pub record ReadsHeader (id n : ℕ) (rest : List ℕ) (d : Channel) : Type 0 where
    pub between : Channel
    pub after : Channel
    pub id_runs : Stream.read 4 d ≡ (ok (write_u32_le id), between)
    pub size_runs : Stream.read 4 between ≡ (ok (write_u32_le (n % 4294967296)), after)
    pub left : Supplies c s limit rest after

  pub reads_header :
      (id n : ℕ) (rest : List ℕ) (d : Channel)
      → Supplies c s limit (sync_header id n ++ rest) d
      → ReadsHeader id n rest d
  reads_header id n rest d u =
      let size = write_u32_le (n % 4294967296) in
      let (a, ra, ua) =
        read-front c s limit 4 (write_u32_le id) (size ++ rest) d
          (subst (λ t. Supplies c s limit t d) (append_assoc (write_u32_le id) size rest) u)
          (four id) in
      let (b, rb, ub) = read-front c s limit 4 size rest a ua (four (n % 4294967296)) in
      record { between = a; after = b; id_runs = ra; size_runs = rb; left = ub }

-- QUIT, on a stream whose peer takes eight bytes.
pub quit-Supplies :
    (c : Connection) (s : Stream) (limit : ℕ) (tape : List ℕ) (d : Channel)
    → Supplies c s limit tape d
    → 8 ≤ c.peer_max_data
    → (after : Channel) × (write_quit d ≡ (ok tt, after)) × Supplies c s limit tape after
unfolding write_quit
quit-Supplies c s limit tape d u h =
    let zeros : List ℕ = 0 ∷ 0 ∷ 0 ∷ 0 ∷ [] in
    let quit = write_u32_le quit_id ++ zeros in
    let e : length quit ≡ 8 =
      omega (arith, length-append (write_u32_le quit_id) zeros, four quit_id) in
    write-Supplies c s limit tape quit d u (omega (arith, e)) (omega (arith, e))

pub length-path_request : (id : ℕ) (path : List ℕ) → length (path_request id path) ≡ 8 + length path
unfolding write_u32_le
length-path_request id path = omega arith
