-- ===== src/Crypto/Loading.antt =====
-- `Key::load_or_generate` of src/crypto/adb_key.cpp from call to call.
use adbcpp.Base.{
  ℕ, ◌≡◌, ◌⊎◌, inl, inr, refl, sym, ap, ◌∙◌, List, Bool, true, false, Option, none, some,
  Option-cases, codes,
}
use adbcpp.Outcome.{Result, ok}
use adbcpp.Crypto.Key.{
  Host, Key, key_directory, loaded, seeded, create_key, load_or_create, load_or_generate,
  pem_buffer_size,
}
use adbcpp.Crypto.Host.{Contents, present, IsHost}
use adbcpp.Crypto.Storing.{create_key_ok}

module _ {K F : Type 0} (os : Host K F) (file pending : Contents F) (parse : List ℕ → ℕ ⊎ K)
    (host : IsHost os file pending parse) where
  -- What `loaded` makes of a parsed key.
  abbrev key_of : ℕ ⊎ K → F → Result (Key K)
  key_of r f = (loaded os (r, f)).0

  seeded-runs :
      {B : Type 0} (call : F → (ℕ ⊎ B) × F) (f : F) → seeded os call f ≡ call (os.drbg_seed f).1
  seeded-runs call f = rw (host.seeds f)

  loaded_keeps : (r : (ℕ ⊎ K) × F) → (loaded os r).1 ≡ r.1
  loaded_keeps (inl code, f) = refl
  loaded_keeps (inr pk, f) = refl

  loaded_same : (r : ℕ ⊎ K) (f g : F) → (loaded os (r, f)).0 ≡ (loaded os (r, g)).0
  loaded_same (inl code) f g = refl
  loaded_same (inr pk) f g = refl

  module _ (directory : List ℕ) where
    abbrev path : List ℕ
    path = os.join directory (codes "adbkey")

    abbrev looked : F → F
    looked f = (os.exists path f).1

    abbrev parsed : F → (ℕ ⊎ K) × F
    parsed f = os.parse_keyfile path (os.drbg_seed (looked f)).1

    check_present :
        (r : Option Bool × F)
        → r.0 ≡ some true
        → load_or_create os directory r ≡ loaded os (seeded os (os.parse_keyfile path) r.1)
    check_present (none, f) h = absurd (cc)
    check_present (some true, f) h = refl
    check_present (some false, f) h = absurd (cc)

    check_absent :
        (r : Option Bool × F)
        → r.0 ≡ some false
        → load_or_create os directory r ≡ create_key os directory r.1
    check_absent (none, f) h = absurd (cc)
    check_absent (some true, f) h = absurd (cc)
    check_absent (some false, f) h = refl

    directory_runs :
        (f : F)
        → key_directory os ≡ ok directory
        → load_or_generate os f ≡ load_or_create os directory (os.exists path f)
    unfolding load_or_generate
    directory_runs f d = rw (load_or_generate, d)

    runs-present :
        (f : F) (text : List ℕ)
        → key_directory os ≡ ok directory
        → file f path ≡ some text
        → load_or_generate os f ≡ loaded os (parsed f)
    runs-present f text d h =
        directory_runs f d
        ∙ check_present (os.exists path f) (host.looks path f ∙ ap (λ t. some (present t)) h)
        ∙ ap (loaded os) (seeded-runs (os.parse_keyfile path) (looked f))

    parsed_keeps : (f : F) → file (parsed f).1 ≡ file f
    parsed_keeps f =
        host.parse_keeps path (os.drbg_seed (looked f)).1
        ∙ host.seed_keeps (looked f)
        ∙ host.exists_keeps path f

    parsed-text : (f : F) (text : List ℕ) → file f path ≡ some text → (parsed f).0 ≡ parse text
    parsed-text f text h =
        host.parses path text (os.drbg_seed (looked f)).1
          (ap (λ t. t path) (host.seed_keeps (looked f) ∙ host.exists_keeps path f) ∙ h)

    loaded-split : (r : (ℕ ⊎ K) × F) → (loaded os r).0 ≡ key_of r.0 r.1
    loaded-split r = refl

    -- Where a key is stored, it is what is returned, and no file changes.
    pub load_present :
        (f : F) (text : List ℕ)
        → key_directory os ≡ ok directory
        → file f path ≡ some text
        → ((load_or_generate os f).0 ≡ key_of (parse text) f)
          × (file (load_or_generate os f).1 ≡ file f)
    load_present f text d h =
        let r = runs-present f text d h in
        (
          ap (λ x. x.0) r
              ∙ loaded_same (parsed f).0 (parsed f).1 f
              ∙ ap (λ x. key_of x f) (parsed-text f text h),
          ap (λ x. file x.1) r ∙ ap file (loaded_keeps (parsed f)) ∙ parsed_keeps f,
        )

  abbrev private_path : List ℕ → List ℕ
  private_path directory = os.join directory (codes "adbkey")

  -- On a host that keeps the promises of its documentation, a key that is stored is never written
  -- over: whatever `load_or_generate` returns, where there is a private key no file changes.
  pub load_or_generate-kept :
      (directory text : List ℕ) (f : F)
      → key_directory os ≡ ok directory
      → file f (private_path directory) ≡ some text
      → file (load_or_generate os f).1 ≡ file f
  load_or_generate-kept directory text f d h = (load_present directory f text d h).1

  -- A close of a stream, which the source does not look at, could write the buffer out.
  abbrev pub Flushes : Type 0
  Flushes = (path : List ℕ) (f : F) → (os.close_file path f).0 ≡ true

  absent_again :
      (directory : List ℕ) (f : F) (key : Key K) (f' : F)
      → Flushes
      → key_directory os ≡ ok directory
      → file f (private_path directory) ≡ none
      → load_or_generate os f ≡ (ok key, f')
      → (load_or_generate os f').0 ≡ ok key
  absent_again directory f key f' flushes d n h =
      let runs =
        directory_runs directory f d
        ∙ check_absent directory (os.exists (private_path directory) f)
            (host.looks (private_path directory) f ∙ ap (λ t. some (present t)) n) in
      let (pem, stored, text, made) =
        create_key_ok os file pending parse host directory (os.exists (private_path directory) f).1
          key f' flushes (sym runs ∙ h) in
      (load_present directory f' pem d stored).0
      ∙ ap (λ r. key_of r f') (host.pem_parses key.pk pem_buffer_size pem text)
      ∙ made

  -- On a host that keeps the promises of its documentation, and where the streams could write their
  -- buffers out when they were destroyed, which the source does not look at: a key that
  -- `load_or_generate` returns, whether it was stored before or is new, is the key that the next call
  -- returns.
  pub load_or_generate-again :
      (directory : List ℕ) (f : F) (key : Key K) (f' : F)
      → Flushes
      → key_directory os ≡ ok directory
      → load_or_generate os f ≡ (ok key, f')
      → (load_or_generate os f').0 ≡ ok key
  load_or_generate-again directory f key f' flushes d h =
      elim (Option-cases (file f (private_path directory))) [
        | inl n ↦ absent_again directory f key f' flushes d n h
        | inr (text, e) ↦
            let (returns, keeps) = load_present directory f text d e in
            let same : file f' (private_path directory) ≡ some text =
              ap (λ x. file x.1 (private_path directory)) (sym h)
              ∙ ap (λ t. t (private_path directory)) keeps
              ∙ e in
            (load_present directory f' text d same).0
            ∙ loaded_same (parse text) f' f
            ∙ sym returns
            ∙ ap (λ x. x.0) h
      ]
