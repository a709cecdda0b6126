-- ===== src/Sync/Entries.antt =====
-- What the device writes about a file, in both forms of STAT and of a directory entry, and how
-- src/sync.cpp reads it.
use adbcpp.Base.{
  ℕ, ◌+◌, ◌/◌, ◌%◌, ◌<◌, ◌≡◌, ap, ◌∙◌, List, [], ◌++◌, append_assoc, append-nil, arith, not, ◌&&◌,
  ◌==◌, IsU32, length, drop, drop-append, drop_add, length-append,
}
use adbcpp.Protocol.ByteOrder.{write_u32_le, read_u32_le-write_u32_le}
use adbcpp.Sync.Wire.{read_u64_le}
use adbcpp.Sync.Words.{read_u64_le-halves}
use adbcpp.Sync.Replies.{four}
use adbcpp.Sync.Stat.{FileStat, read_v1, read_v2, is_missing_v1, is_missing_v2}

-- A file of the device: the error of its `lstat`, and its metadata; the fields that the program does
-- not read are bytes.
pub record Inode : Type 0 where
  pub problem : ℕ
  pub ids : List ℕ
  pub mode : ℕ
  pub owners : List ℕ
  pub size : ℕ
  pub atime : List ℕ
  pub mtime : ℕ
  pub ctime : List ℕ

abbrev pub IsU64 : ℕ → Type 0
IsU64 n = n < 18446744073709551616

-- The widths of the fields.
pub record IsInode (n : Inode) : Type 0 where
  pub problem : IsU32 n.problem
  pub ids : length n.ids ≡ 16
  pub mode : IsU32 n.mode
  pub owners : length n.owners ≡ 12
  pub size : IsU64 n.size
  pub atime : length n.atime ≡ 8
  pub mtime : IsU64 n.mtime
  pub ctime : length n.ctime ≡ 8

-- The first form has 32 bits for the size and the time.
pub record IsSmall (n : Inode) : Type 0 where
  pub mode : IsU32 n.mode
  pub size : IsU32 n.size
  pub mtime : IsU32 n.mtime

unfoldable pub write_u64_le : ℕ → List ℕ
write_u64_le n = write_u32_le (n % 4294967296) ++ write_u32_le (n / 4294967296)

unfoldable pub stat_bytes_v1 : Inode → List ℕ
stat_bytes_v1 n = write_u32_le n.mode ++ (write_u32_le n.size ++ write_u32_le n.mtime)

unfoldable pub stat_bytes_v2 : Inode → List ℕ
stat_bytes_v2 n =
    write_u32_le n.problem
    ++ (n.ids
        ++ (write_u32_le n.mode
            ++ (n.owners
                ++ (write_u64_le n.size ++ (n.atime ++ (write_u64_le n.mtime ++ n.ctime))))))

abbrev pub metadata_of : Inode → FileStat
metadata_of n = record { mode = n.mode; size = n.size; mtime = n.mtime }

skip :
    (n k : ℕ) (front rest : List ℕ) → length front ≡ n → drop (n + k) (front ++ rest) ≡ drop k rest
skip n k front rest h = drop_add n k (front ++ rest) ∙ ap (drop k) (drop-append n front rest h)

read_u64_le-write_u64_le :
    (n : ℕ) (rest : List ℕ) → IsU64 n → read_u64_le (write_u64_le n ++ rest) ≡ n
unfolding write_u64_le
read_u64_le-write_u64_le n rest h =
    let low = write_u32_le (n % 4294967296) in
    let high = write_u32_le (n / 4294967296) in
    ap read_u64_le (append_assoc low high rest)
    ∙ read_u64_le-halves (n % 4294967296) (n / 4294967296) rest (omega arith) (omega arith)
    ∙ omega arith

eight : (n : ℕ) → length (write_u64_le n) ≡ 8
unfolding write_u64_le
eight n = omega (
  arith,
  length-append (write_u32_le (n % 4294967296)) (write_u32_le (n / 4294967296)),
  four (n % 4294967296),
  four (n / 4294967296),
)

module _ (n : Inode) (rest : List ℕ) where
  pub read_v1-stat_bytes : IsSmall n → read_v1 (stat_bytes_v1 n ++ rest) ≡ metadata_of n
  unfolding read_v1 stat_bytes_v1
  read_v1-stat_bytes h =
      let a = write_u32_le n.mode in
      let b = write_u32_le n.size in
      let c = write_u32_le n.mtime in
      let flat : (a ++ (b ++ c)) ++ rest ≡ a ++ (b ++ (c ++ rest)) =
        append_assoc a (b ++ c) rest ∙ ap (λ t. a ++ t) (append_assoc b c rest) in
      let at_size : drop 4 (a ++ (b ++ (c ++ rest))) ≡ b ++ (c ++ rest) =
        drop-append 4 a (b ++ (c ++ rest)) (four n.mode) in
      let at_mtime : drop 8 (a ++ (b ++ (c ++ rest))) ≡ c ++ rest =
        skip 4 4 a (b ++ (c ++ rest)) (four n.mode) ∙ drop-append 4 b (c ++ rest) (four n.size) in
      rw (
        flat,
        at_size,
        at_mtime,
        read_u32_le-write_u32_le n.mode (b ++ (c ++ rest)) h.mode,
        read_u32_le-write_u32_le n.size (c ++ rest) h.size,
        read_u32_le-write_u32_le n.mtime rest h.mtime,
      )

pub length-stat_bytes_v1 : (n : Inode) → length (stat_bytes_v1 n) ≡ 12
unfolding stat_bytes_v1
length-stat_bytes_v1 n =
    let a = write_u32_le n.mode in
    let b = write_u32_le n.size in
    let c = write_u32_le n.mtime in
    omega
      (arith, length-append a (b ++ c), length-append b c, four n.mode, four n.size, four n.mtime)

-- The parts of the second form, each with those behind it.
module _ (n : Inode) (h : IsInode n) where
  abbrev from_mtime : List ℕ → List ℕ
  from_mtime rest = write_u64_le n.mtime ++ (n.ctime ++ rest)

  abbrev from_size : List ℕ → List ℕ
  from_size rest = write_u64_le n.size ++ (n.atime ++ from_mtime rest)

  abbrev from_mode : List ℕ → List ℕ
  from_mode rest = write_u32_le n.mode ++ (n.owners ++ from_size rest)

  abbrev from_problem : List ℕ → List ℕ
  from_problem rest = write_u32_le n.problem ++ (n.ids ++ from_mode rest)

  flat : (rest : List ℕ) → stat_bytes_v2 n ++ rest ≡ from_problem rest
  unfolding stat_bytes_v2
  flat rest = simp append_assoc

  pub length-stat_bytes_v2 : length (stat_bytes_v2 n) ≡ 68
  length-stat_bytes_v2 = omega (
    arith,
    ap length (append-nil (stat_bytes_v2 n)),
    ap length (flat []),
    length-append (write_u32_le n.problem) (n.ids ++ from_mode []),
    length-append n.ids (from_mode []),
    length-append (write_u32_le n.mode) (n.owners ++ from_size []),
    length-append n.owners (from_size []),
    length-append (write_u64_le n.size) (n.atime ++ from_mtime []),
    length-append n.atime (from_mtime []),
    length-append (write_u64_le n.mtime) (n.ctime ++ []),
    length-append n.ctime [],
    four n.problem,
    four n.mode,
    eight n.size,
    eight n.mtime,
    h.ids,
    h.owners,
    h.atime,
    h.ctime,
  )

  at_mode : (rest : List ℕ) → drop 20 (from_problem rest) ≡ from_mode rest
  at_mode rest =
      skip 4 16 (write_u32_le n.problem) (n.ids ++ from_mode rest) (four n.problem)
      ∙ drop-append 16 n.ids (from_mode rest) h.ids

  behind_mode : (k : ℕ) (rest : List ℕ) → drop (16 + k) (from_mode rest) ≡ drop k (from_size rest)
  behind_mode k rest =
      ap (λ j. drop j (from_mode rest)) (omega arith)
      ∙ skip 4 (12 + k) (write_u32_le n.mode) (n.owners ++ from_size rest) (four n.mode)
      ∙ skip 12 k n.owners (from_size rest) h.owners

  at_size : (rest : List ℕ) → drop 36 (from_problem rest) ≡ from_size rest
  at_size rest =
      drop_add 20 16 (from_problem rest) ∙ ap (drop 16) (at_mode rest) ∙ behind_mode 0 rest

  at_mtime : (rest : List ℕ) → drop 52 (from_problem rest) ≡ from_mtime rest
  at_mtime rest =
      drop_add 36 16 (from_problem rest)
      ∙ ap (drop 16) (at_size rest)
      ∙ skip 8 8 (write_u64_le n.size) (n.atime ++ from_mtime rest) (eight n.size)
      ∙ drop-append 8 n.atime (from_mtime rest) h.atime

  pub read_v2-stat_bytes : (rest : List ℕ) → read_v2 (stat_bytes_v2 n ++ rest) ≡ metadata_of n
  unfolding read_v2
  read_v2-stat_bytes rest = rw (
    flat rest,
    at_mode rest,
    at_size rest,
    at_mtime rest,
    read_u32_le-write_u32_le n.mode (n.owners ++ from_size rest) h.mode,
    read_u64_le-write_u64_le n.size (n.atime ++ from_mtime rest) h.size,
    read_u64_le-write_u64_le n.mtime (n.ctime ++ rest) h.mtime,
  )

  pub is_missing_v2-stat_bytes :
      (rest : List ℕ) → is_missing_v2 (stat_bytes_v2 n ++ rest) ≡ not (n.problem == 0)
  unfolding is_missing_v2
  is_missing_v2-stat_bytes rest =
      rw (flat rest, read_u32_le-write_u32_le n.problem (n.ids ++ from_mode rest) h.problem)

-- The first form has no error: a path whose metadata is all zero counts as missing.
pub is_missing_v1-stat_bytes :
    (n : Inode) (rest : List ℕ)
    → IsSmall n
    → is_missing_v1 (stat_bytes_v1 n ++ rest) ≡ (n.mode == 0 && (n.size == 0 && n.mtime == 0))
unfolding is_missing_v1 read_v1
is_missing_v1-stat_bytes n rest h =
    let e = read_v1-stat_bytes n rest h in
    ap (λ (f : FileStat). f.mode == 0 && (f.size == 0 && f.mtime == 0)) e
