-- ===== src/Crypto/Key.antt =====
-- `home_directory`, `key_directory`, `Key::generate`, `Key::load_or_generate` and `Key::sign` of
-- src/crypto/adb_key.cpp, in the POSIX branch.
use adbcpp.Base.{
  ℕ, Bool, true, false, ◌==◌, if◌then◌else◌, List, [], ◌∷◌, ◌++◌, Option, none, some, ◌⊎◌, inl, inr,
  String, is_empty, codes,
}
use adbcpp.Outcome.{Error, Result, ok, err, stuck, error, crypto, io}
use adbcpp.Outcome.Exec.{Exec, pure, lift, ◌>>=◌, ◌>>◌}
use adbcpp.Crypto.Encoding.{Mbed, encode_public_key}

-- The environment, the file system and the random calls of mbedTLS, over a state `F`. A path is its
-- text; `to_path` and `join` are the constructor, which can throw, and the operator of
-- `std::filesystem::path`. A code is the result of mbedTLS by its absolute value, `digits` prints it
-- with its sign, and a seed is good for the call that follows it. `write_file` is what a stream
-- accepts into its buffer, and `close_file` the destructor of the stream, which writes the buffer out.
pub record Host (K F : Type 0) : Type 0 where
  pub tls : Mbed K
  pub getenv_home : Option (List ℕ)
  pub to_path : List ℕ → Option (List ℕ)
  pub join : List ℕ → List ℕ → List ℕ
  pub exists : List ℕ → F → Option Bool × F
  pub create_directories : List ℕ → F → Bool × F
  pub open_file : List ℕ → F → Bool × F
  pub write_file : List ℕ → List ℕ → F → Bool × F
  pub close_file : List ℕ → F → Bool × F
  pub pk_setup : F → Option K × F
  pub drbg_seed : F → ℕ × F
  pub rsa_gen_key : K → ℕ → ℕ → F → (ℕ ⊎ K) × F
  pub parse_keyfile : List ℕ → F → (ℕ ⊎ K) × F
  pub write_key_pem : K → ℕ → Option (List ℕ)
  pub pk_sign : K → List ℕ → F → (ℕ ⊎ List ℕ) × F
  pub digits : ℕ → List ℕ

pub record Key (K : Type 0) : Type 0 where
  pub pk : K
  pub public_key : List ℕ

abbrev pub pem_buffer_size : ℕ
pem_buffer_size = 8192

module _ {K F : Type 0} (os : Host K F) where
  unfoldable pub home_directory : Result (List ℕ)
  home_directory = elim os.getenv_home [
    | none ↦ err (error io "cannot locate the home directory")
    | some value ↦
        if is_empty value
        then err (error io "cannot locate the home directory")
        else elim (os.to_path value) [
          | none ↦ err (error io "cannot locate the home directory")
          | some path ↦ ok path
        ]
  ]

  unfoldable pub key_directory : Result (List ℕ)
  key_directory = elim home_directory [
    | ok home ↦ ok (os.join home (codes ".android"))
    | err e ↦ err e
    | stuck ↦ stuck
  ]

  -- A call of the random generator behind its seed: the code of either, or what the call makes.
  abbrev pub seeded : {B : Type 0} → (F → (ℕ ⊎ B) × F) → F → (ℕ ⊎ B) × F
  seeded call f =
      let seed = os.drbg_seed f in if seed.0 == 0 then call seed.1 else (inl seed.0, seed.1)

  -- The public key is made from the key pair.
  unfoldable pub with_public_key : K → Result (Key K)
  with_public_key pk = elim (encode_public_key os.tls pk) [
    | ok text ↦ ok (record { pk = pk; public_key = text })
    | err e ↦ err e
    | stuck ↦ stuck
  ]

  abbrev pub generated : (ℕ ⊎ K) × F → Result (Key K) × F
  generated (inl code, f) = (err (error crypto "failed to generate an RSA key"), f)
  generated (inr pk, f) = (with_public_key pk, f)

  unfoldable pub generate : Exec F (Key K)
  generate f =
      let setup = os.pk_setup f in
      elim setup.0 [
        | none ↦ (err (error crypto "failed to set up an RSA key"), setup.1)
        | some pk ↦ generated (seeded (os.rsa_gen_key pk 2048 65537) setup.1)
      ]

  -- An error with the code of mbedTLS in brackets.
  abbrev pub coded : String → ℕ → Error
  coded message code = record {
    code = crypto;
    message = message;
    detail = codes " (" ++ os.digits code ++ codes ")";
  }

  abbrev pub loaded : (ℕ ⊎ K) × F → Result (Key K) × F
  loaded (inl code, f) = (err (coded "failed to load the ADB private key" code), f)
  loaded (inr pk, f) = (with_public_key pk, f)

  -- A call that tells success by a flag.
  abbrev pub check : (F → Bool × F) → Error → Exec F Unit
  check call e f = let r = call f in (if r.0 then ok tt else err e, r.1)

  -- What is done while a stream is open. Its destructor runs on every path behind that, and whether it
  -- could write the buffer out is not looked at.
  abbrev pub while_open : {A : Type 0} → List ℕ → Error → Exec F A → Bool × F → Result A × F
  while_open path unopened body (false, f) = (err unopened, f)
  while_open path unopened body (true, f) =
      let done = body f in (done.0, (os.close_file path done.1).1)

  -- One of the two files: it is opened, which truncates it, and written; what follows is done while
  -- it is open.
  unfoldable pub store_file : {A : Type 0} → List ℕ → List ℕ → Error → Error → Exec F A → Exec F A
  store_file path bytes unopened unwritten rest f =
      while_open path unopened (check (os.write_file path bytes) unwritten >> rest)
        (os.open_file path f)

  -- `load_or_generate` where there is no key yet.
  unfoldable pub create_key : List ℕ → Exec F (Key K)
  create_key directory = do
    key ← generate
    check (os.create_directories directory) (error io "cannot create the ADB key directory")
    pem ← lift (elim (os.write_key_pem key.pk pem_buffer_size) [
      | none ↦ err (error crypto "failed to store the ADB private key")
      | some text ↦ ok text
    ])
    store_file (os.join directory (codes "adbkey")) pem
        (error io "cannot open the ADB private key for writing")
        (error io "failed to store the ADB private key")
        (store_file (os.join directory (codes "adbkey.pub")) (key.public_key ++ 10 ∷ [])
          (error io "cannot open the ADB public key for writing")
          (error io "failed to store the ADB public key") (pure key))

  abbrev pub load_or_create : List ℕ → Option Bool × F → Result (Key K) × F
  load_or_create directory (none, f) = (err (error io "cannot check the ADB private key"), f)
  load_or_create directory (some true, f) =
      loaded (seeded (os.parse_keyfile (os.join directory (codes "adbkey"))) f)
  load_or_create directory (some false, f) = create_key directory f

  unfoldable pub load_or_generate : Exec F (Key K)
  load_or_generate f = elim key_directory [
    | err e ↦ (err e, f)
    | stuck ↦ (stuck, f)
    | ok directory ↦ load_or_create directory (os.exists (os.join directory (codes "adbkey")) f)
  ]

  -- The token is signed as it is, as a SHA-1 digest.
  unfoldable pub sign : Key K → List ℕ → Exec F (List ℕ)
  sign key token f =
      let r = seeded (os.pk_sign key.pk token) f in
      (
        elim r.0 [
          | inl code ↦ err (coded "failed to sign the token" code)
          | inr signature ↦ ok signature
        ],
        r.1,
      )
