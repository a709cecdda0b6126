-- ===== src/Examples/Keys.antt =====
-- The public key at concrete inputs.
use adbcpp.Base.{
  ℕ, zero, suc, ◌+◌, ◌*◌, ◌%◌, ◌≡◌, refl, sym, ap, ◌∙◌, List, [], ◌∷◌, ◌++◌, ◌≢◌, Option, none,
  some, true, Bool-cases, inl, inr, if◌then◌else◌, codes, length, length-append, replicate, arith,
}
use adbcpp.Base.Text.{eq_bytes, eq_bytes_iff}
use adbcpp.Outcome.{ok}
use adbcpp.Crypto.Newton.{inverse_mod_2_32}
use adbcpp.Crypto.Encoding.{
  Mbed, reverse, negate_u32, blob_of, encode_public_key, compute_rr, to_little_endian,
}
use adbcpp.Crypto.Key.{
  Host, Key, key_directory, home_directory, load_or_generate, create_key, generate, with_public_key,
  store_file,
}
use adbcpp.Crypto.Loading.{load_or_generate-kept, load_or_generate-again}
use adbcpp.Crypto.Host.{present, IsHost}
use adbcpp.Crypto.Layout.{parts, blob_of-parts, n0inv-IsInverse}

n0inv-IsInverse_example :
    (3737844653 * negate_u32 (inverse_mod_2_32 3737844653) + 1) % 4294967296 ≡ 0
n0inv-IsInverse_example = n0inv-IsInverse 3737844653 (omega arith) refl

-- A library whose bignums are written as their last byte repeated.
abbrev repeated : ℕ → ℕ → List ℕ
repeated size value = replicate size (value % 256)

length-repeated : (size value : ℕ) → length (repeated size value) ≡ size
length-repeated zero value = refl
length-repeated (suc size) value = ap suc (length-repeated size value)

abbrev toy_tls : Mbed Unit
toy_tls = record {
  rsa_export = λ k. some (15, 3);
  mpi_lset = λ n. some n;
  mpi_shift_l = λ n k. some n;
  mpi_mod_mpi = λ a n. some 1;
  mpi_write_binary = λ size value. some (repeated size value);
  base64_encode = λ size bytes. some bytes;
  base64_decode = λ size bytes. some bytes;
  md5 = λ bytes. bytes;
}

toy_tls-writes :
    (size value : ℕ) (bytes : List ℕ)
    → some (repeated size value) ≡ some bytes
    → length bytes ≡ size
toy_tls-writes size value bytes h =
    let same : repeated size value ≡ bytes = cc in ap length (sym same) ∙ length-repeated size value

blob_of-parts_example :
    blob_of toy_tls 15 1 3
    ≡ ok (parts (reverse (repeated 256 15)) (reverse (repeated 256 1)) (reverse (repeated 4 3)))
blob_of-parts_example =
    blob_of-parts toy_tls toy_tls-writes 15 1 3 (repeated 256 15) (repeated 256 1) (repeated 4 3)
      refl refl refl

-- A host whose files are a function, and whose only key is stored as `PEM`.
abbrev Disk : Type 0
Disk = List ℕ → Option (List ℕ)

abbrev stored : Disk → List ℕ → List ℕ → Disk
stored disk path bytes other = if eq_bytes other path then some bytes else disk other

abbrev or_empty : Option (List ℕ) → List ℕ
or_empty none = []
or_empty (some bytes) = bytes

abbrev toy_host : Host Unit Disk
toy_host = record {
  tls = record toy_tls { base64_encode = λ size bytes. some (codes "AAAA") };
  getenv_home = some (codes "/h");
  to_path = λ text. some text;
  join = λ directory name. directory ++ b'/' ∷ name;
  exists = λ path disk. (some (present (disk path)), disk);
  create_directories = λ path disk. (true, disk);
  open_file = λ path disk. (true, stored disk path []);
  write_file = λ path bytes disk. (true, stored disk path (or_empty (disk path) ++ bytes));
  close_file = λ path disk. (true, disk);
  pk_setup = λ disk. (some tt, disk);
  drbg_seed = λ disk. (0, disk);
  rsa_gen_key = λ pk bits exponent disk. (inr pk, disk);
  parse_keyfile = λ path disk. (inr tt, disk);
  write_key_pem = λ pk size. some (codes "PEM");
  pk_sign = λ pk token disk. (inr token, disk);
  digits = λ n. [];
}

stored-other :
    (disk : Disk) (path bytes other : List ℕ)
    → other ≢ path
    → stored disk path bytes other ≡ disk other
stored-other disk path bytes other n = elim (Bool-cases (eq_bytes other path)) [
  | inl e ↦ absurd (n ((eq_bytes_iff other path).0 e))
  | inr e ↦ rw e
]

stored-same : (disk : Disk) (path bytes : List ℕ) → stored disk path bytes path ≡ some bytes
stored-same disk path bytes = rw ((eq_bytes_iff path path).1 refl)

toy_host-IsHost : IsHost toy_host (λ disk. disk) (λ disk. disk) (λ text. inr tt)
toy_host-IsHost = record {
  looks = λ path f. refl;
  exists_keeps = λ path f. refl;
  seeds = λ f. refl;
  seed_keeps = λ f. refl;
  setup_keeps = λ f. refl;
  gen_keeps = λ pk bits exponent f. refl;
  parse_keeps = λ path f. refl;
  parses = λ path text f h. refl;
  directories_keep = λ path f. refl;
  opens = λ path f h. stored-same f path [];
  open_keeps = λ path other f n. stored-other f path [] other n;
  writes = λ path bytes old f h e. stored-same f path (or_empty (f path) ++ bytes) ∙ rw h;
  write_keeps = λ path bytes other f n. stored-other f path (or_empty (f path) ++ bytes) other n;
  closes = λ path text f h e. h;
  close_keeps = λ path other f n. refl;
  pem_parses = λ pk size text h. refl;
  two_files = λ directory e. omega (
    arith,
    ap length e,
    length-append directory (b'/' ∷ codes "adbkey"),
    length-append directory (b'/' ∷ codes "adbkey.pub"),
  );
}

abbrev empty_disk : Disk
empty_disk path = none

-- The key that the first call makes.
abbrev first_key : Key Unit
first_key = record { pk = tt; public_key = codes "AAAA adbcpp@localhost" }

abbrev key_folder : List ℕ
key_folder = codes "/h/.android"

folder_runs : key_directory toy_host ≡ ok key_folder
unfolding key_directory home_directory
folder_runs = refl

first_call :
    load_or_generate toy_host empty_disk ≡ (ok first_key, (load_or_generate toy_host empty_disk).1)
unfolding load_or_generate key_directory home_directory create_key generate with_public_key
    store_file encode_public_key compute_rr blob_of to_little_endian eq_bytes
first_call = refl

load_or_generate-again_example :
    (load_or_generate toy_host (load_or_generate toy_host empty_disk).1).0 ≡ ok first_key
load_or_generate-again_example =
    load_or_generate-again toy_host (λ disk. disk) (λ disk. disk) (λ text. inr tt) toy_host-IsHost
      key_folder empty_disk first_key (load_or_generate toy_host empty_disk).1 (λ path f. refl)
      folder_runs first_call

abbrev used_disk : Disk
used_disk path = some (codes "PEM")

load_or_generate-kept_example : (load_or_generate toy_host used_disk).1 ≡ used_disk
load_or_generate-kept_example =
    load_or_generate-kept toy_host (λ disk. disk) (λ disk. disk) (λ text. inr tt) toy_host-IsHost
      key_folder (codes "PEM") used_disk folder_runs refl
