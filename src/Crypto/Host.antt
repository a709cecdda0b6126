-- ===== src/Crypto/Host.antt =====
-- What `Key::load_or_generate` of src/crypto/adb_key.cpp relies on: the file system and mbedTLS.
use adbcpp.Base.{
  ℕ, ◌≡◌, ◌≢◌, ◌⊎◌, inr, List, [], ◌++◌, Bool, true, false, Option, none, some, codes,
}
use adbcpp.Crypto.Key.{Host}

-- The contents of the files in a state of the host, by their paths; `none` where there is none.
abbrev pub Contents : Type 0 → Type 0
Contents F = F → List ℕ → Option (List ℕ)

abbrev pub present : Option (List ℕ) → Bool
present none = false
present (some text) = true

-- What the documentation promises of the file system and of mbedTLS, where every path can be looked
-- at and the random generator has its seed. `pending` is what has been written to the streams that
-- are open, by their paths: opening, writing and closing a stream change it for no other path, and
-- it is in the file behind a close that could write the buffer out. No call that is not on a stream
-- changes a file, a private key is parsed from the contents of its file, and the PEM text of a key
-- is parsed to that key.
pub record IsHost {K F : Type 0} (os : Host K F) (file pending : Contents F)
    (parse : List ℕ → ℕ ⊎ K) : Type 0 where
  pub looks : (path : List ℕ) (f : F) → (os.exists path f).0 ≡ some (present (file f path))
  pub exists_keeps : (path : List ℕ) (f : F) → file (os.exists path f).1 ≡ file f
  pub seeds : (f : F) → (os.drbg_seed f).0 ≡ 0
  pub seed_keeps : (f : F) → file (os.drbg_seed f).1 ≡ file f
  pub setup_keeps : (f : F) → file (os.pk_setup f).1 ≡ file f
  pub gen_keeps :
      (pk : K) (bits exponent : ℕ) (f : F) → file (os.rsa_gen_key pk bits exponent f).1 ≡ file f
  pub parse_keeps : (path : List ℕ) (f : F) → file (os.parse_keyfile path f).1 ≡ file f
  pub parses :
      (path text : List ℕ) (f : F)
      → file f path ≡ some text
      → (os.parse_keyfile path f).0 ≡ parse text
  pub directories_keep : (path : List ℕ) (f : F) → file (os.create_directories path f).1 ≡ file f
  pub opens :
      (path : List ℕ) (f : F)
      → (os.open_file path f).0 ≡ true
      → pending (os.open_file path f).1 path ≡ some []
  pub open_keeps :
      (path other : List ℕ) (f : F)
      → other ≢ path
      → pending (os.open_file path f).1 other ≡ pending f other
  pub writes :
      (path bytes old : List ℕ) (f : F)
      → pending f path ≡ some old
      → (os.write_file path bytes f).0 ≡ true
      → pending (os.write_file path bytes f).1 path ≡ some (old ++ bytes)
  pub write_keeps :
      (path bytes other : List ℕ) (f : F)
      → other ≢ path
      → pending (os.write_file path bytes f).1 other ≡ pending f other
  pub closes :
      (path text : List ℕ) (f : F)
      → pending f path ≡ some text
      → (os.close_file path f).0 ≡ true
      → file (os.close_file path f).1 path ≡ some text
  pub close_keeps :
      (path other : List ℕ) (f : F)
      → other ≢ path
      → pending (os.close_file path f).1 other ≡ pending f other
  pub pem_parses :
      (pk : K) (size : ℕ) (text : List ℕ)
      → os.write_key_pem pk size ≡ some text
      → parse text ≡ inr pk
  pub two_files :
      (directory : List ℕ)
      → os.join directory (codes "adbkey") ≢ os.join directory (codes "adbkey.pub")
