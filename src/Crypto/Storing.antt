-- ===== src/Crypto/Storing.antt =====
-- `Key::load_or_generate` of src/crypto/adb_key.cpp where there is no key yet: the key that is stored.
use adbcpp.Base.{
  ℕ, ◌≡◌, ◌≢◌, ◌⊎◌, inl, inr, refl, sym, ap, ◌∙◌, List, [], ◌∷◌, ◌++◌, Bool, true, false,
  if◌then◌else◌, none, some, Option-cases, codes,
}
use mathlib.Core.Path.{subst}
use adbcpp.Outcome.{Error, Result, ok, err, stuck, error, io, crypto}
use adbcpp.Outcome.Exec.{Exec, pure, lift, ◌>>=◌, ◌>>◌, bind_ok}
use adbcpp.Crypto.Encoding.{encode_public_key}
use adbcpp.Crypto.Key.{
  Host, Key, with_public_key, generate, generated, seeded, check, while_open, store_file,
  create_key, pem_buffer_size,
}
use adbcpp.Crypto.Host.{Contents, IsHost}

module _ {K F : Type 0} (os : Host K F) (file pending : Contents F) (parse : List ℕ → ℕ ⊎ K)
    (host : IsHost os file pending parse) where
  module _ (directory : List ℕ) where
    abbrev path : List ℕ
    path = os.join directory (codes "adbkey")

    made : K → Result (List ℕ) → Result (Key K)
    made pk (ok text) = ok (record { pk = pk; public_key = text })
    made pk (err e) = err e
    made pk stuck = stuck

    made-pk : (pk : K) (key : Key K) (r : Result (List ℕ)) → made pk r ≡ ok key → pk ≡ key.pk
    unfolding made
    made-pk pk key (ok text) h = cc
    made-pk pk key (err e) h = absurd (cc)
    made-pk pk key stuck h = absurd (cc)

    with_public_key-made :
        (pk : K) (r : Result (List ℕ))
        → encode_public_key os.tls pk ≡ r
        → with_public_key os pk ≡ made pk r
    unfolding with_public_key made
    with_public_key-made pk (ok text) e = rw (with_public_key, e)
    with_public_key-made pk (err x) e = rw (with_public_key, e)
    with_public_key-made pk stuck e = rw (with_public_key, e)

    with_public_key-pk : (pk : K) (key : Key K) → with_public_key os pk ≡ ok key → pk ≡ key.pk
    with_public_key-pk pk key h =
        let r = encode_public_key os.tls pk in
        made-pk pk key r (sym (with_public_key-made pk r refl) ∙ h)

    -- The steps of `create_key` from each of its calls on.
    abbrev public_path : List ℕ
    public_path = os.join directory (codes "adbkey.pub")

    abbrev store_public : Key K → Exec F (Key K)
    store_public key =
        store_file os public_path (key.public_key ++ 10 ∷ [])
          (error io "cannot open the ADB public key for writing")
          (error io "failed to store the ADB public key") (pure key)

    abbrev store_both : Key K → List ℕ → Exec F (Key K)
    store_both key pem =
        store_file os path pem (error io "cannot open the ADB private key for writing")
          (error io "failed to store the ADB private key") (store_public key)

    abbrev pem_of : Key K → Result (List ℕ)
    pem_of key = elim (os.write_key_pem key.pk pem_buffer_size) [
      | none ↦ err (error crypto "failed to store the ADB private key")
      | some text ↦ ok text
    ]

    abbrev make_directory : Exec F Unit
    make_directory =
        check os (os.create_directories directory) (error io "cannot create the ADB key directory")

    ok_some : (a b : List ℕ) → ◌≡◌ {A = Result (List ℕ)} (ok a) (ok b) → some a ≡ some b
    ok_some a b h = cc

    pem_of-ok :
        (key : Key K) (pem : List ℕ)
        → pem_of key ≡ ok pem
        → os.write_key_pem key.pk pem_buffer_size ≡ some pem
    pem_of-ok key pem h = elim (Option-cases (os.write_key_pem key.pk pem_buffer_size)) [
      | inl e ↦ absurd (cc (rw (pem_of, e) at h))
      | inr (text, e) ↦ e ∙ ok_some text pem (rw (pem_of, e) at h)
    ]

    pure_ok :
        (a b : Key K) (s t : F)
        → ◌≡◌ {A = Result (Key K) × F} (ok a, s) (ok b, t)
        → (a ≡ b) × (s ≡ t)
    pure_ok a b s t h = (cc, ap (λ x. x.1) h)

    check_ok :
        (r : Bool × F) (e : Error) {x : Unit {0}} {g : F}
        → ◌≡◌ {A = Result (Unit {0}) × F} (if r.0 then ok tt else err e, r.1) (ok x, g)
        → (r.0 ≡ true) × (r.1 ≡ g)
    check_ok (true, f) e h = (refl, ap (λ x. x.1) h)
    check_ok (false, f) e h = absurd (cc)

    -- A file that is stored: what is pending while the rest is done, and the close behind the rest.
    record Stored {A : Type 0} (p bytes : List ℕ) (rest : Exec F A) (f : F) (a : A) (g : F)
        : Type 0 where
      inside : F
      after : F
      accepted : pending inside p ≡ some bytes
      others : (other : List ℕ) → other ≢ p → pending inside other ≡ pending f other
      runs : rest inside ≡ (ok a, after)
      closed : (os.close_file p after).1 ≡ g

    while_open_ok :
        {A : Type 0} (p : List ℕ) (e : Error) (body : Exec F A) (r : Bool × F) (a : A) (g : F)
        → while_open os p e body r ≡ (ok a, g)
        → (r.0 ≡ true) × (after : F) × (body r.1 ≡ (ok a, after)) × ((os.close_file p after).1 ≡ g)
    while_open_ok p e body (false, f) a g h = absurd (cc)
    while_open_ok p e body (true, f) a g h =
        (refl, (body f).1, ap (λ x. (x.0, (body f).1)) h, ap (λ x. x.1) h)

    store_file_ok :
        {A : Type 0} (p bytes : List ℕ) (e e' : Error) (rest : Exec F A) (f : F) (a : A) (g : F)
        → store_file os p bytes e e' rest f ≡ (ok a, g)
        → Stored p bytes rest f a g
    unfolding store_file
    store_file_ok p bytes e e' rest f a g h =
        let opened = os.open_file p f in
        let (good, after, runs, closed) =
          while_open_ok p e (check os (os.write_file p bytes) e' >> rest) opened a g h in
        let (_, f1, w, h1) =
          bind_ok (check os (os.write_file p bytes) e') (λ _. rest) opened.1 runs in
        let (written, z) = check_ok (os.write_file p bytes opened.1) e' w in
        record {
          inside = f1;
          after = after;
          accepted =
              subst (λ s. pending s p ≡ some bytes) z
                (host.writes p bytes [] opened.1 (host.opens p f good) written);
          others = λ other n.
              ap (λ s. pending s other) (sym z)
              ∙ host.write_keeps p bytes other opened.1 n
              ∙ host.open_keeps p other f n;
          runs = h1;
          closed = closed;
        }

    -- The streams are closed in the reverse order, and the private key is pending till then.
    store_both_ok :
        (key made : Key K) (pem : List ℕ) (f g : F)
        → ((p : List ℕ) (s : F) → (os.close_file p s).0 ≡ true)
        → store_both key pem f ≡ (ok made, g)
        → (file g path ≡ some pem) × (key ≡ made)
    store_both_ok key made pem f g flushes h =
        let a = store_file_ok path pem _ _ (store_public key) f made g h in
        let b = store_file_ok public_path _ _ _ (pure key) a.inside made a.after a.runs in
        let (same, left) = pure_ok key made b.inside b.after b.runs in
        let n = host.two_files directory in
        let held : pending b.after path ≡ some pem =
          ap (λ s. pending s path) (sym left) ∙ b.others path n ∙ a.accepted in
        let still : pending a.after path ≡ some pem =
          ap (λ s. pending s path) (sym b.closed)
          ∙ host.close_keeps public_path path b.after n
          ∙ held in
        (
          subst (λ s. file s path ≡ some pem) a.closed
              (host.closes path pem a.after still (flushes path a.after)),
          same,
        )

    generated_ok :
        (r : (ℕ ⊎ K) × F) (key : Key K) (g : F)
        → generated os r ≡ (ok key, g)
        → with_public_key os key.pk ≡ ok key
    generated_ok (inl code, f) key g h = absurd (cc)
    generated_ok (inr pk, f) key g h =
        let e : with_public_key os pk ≡ ok key = ap (λ x. x.0) h in
        subst (λ x. with_public_key os x ≡ ok key) (with_public_key-pk pk key e) e

    generate_ok :
        (f : F) (key : Key K) (g : F)
        → generate os f ≡ (ok key, g)
        → with_public_key os key.pk ≡ ok key
    unfolding generate
    generate_ok f key g h = elim (Option-cases (os.pk_setup f).0) [
      | inl e ↦ absurd (cc (rw (generate, e) at h))
      | inr (pk, e) ↦
          generated_ok (seeded os (os.rsa_gen_key pk 2048 65537) (os.pk_setup f).1) key g
            (rw (generate, e) at h)
    ]

    pub create_key_ok :
        (f : F) (key : Key K) (f' : F)
        → ((p : List ℕ) (s : F) → (os.close_file p s).0 ≡ true)
        → create_key os directory f ≡ (ok key, f')
        → (pem : List ℕ) × (file f' path ≡ some pem)
          × (os.write_key_pem key.pk pem_buffer_size ≡ some pem)
          × (with_public_key os key.pk ≡ ok key)
    unfolding create_key
    create_key_ok f key f' flushes h =
        let (k, f1, g, h1) =
          bind_ok (generate os) (λ x. make_directory >> (lift (pem_of x) >>= store_both x)) f h in
        let (_, f2, dirs, h2) =
          bind_ok make_directory (λ _. lift (pem_of k) >>= store_both k) f1 h1 in
        let (pem, f3, p, h3) = bind_ok (lift (pem_of k)) (store_both k) f2 h2 in
        let (here, same) = store_both_ok k key pem f3 f' flushes h3 in
        let stored : os.write_key_pem key.pk pem_buffer_size ≡ some pem =
          subst (λ x. os.write_key_pem x.pk pem_buffer_size ≡ some pem) same
            (pem_of-ok k pem (ap (λ x. x.0) p)) in
        (pem, here, stored, subst (λ x. with_public_key os x.pk ≡ ok x) same (generate_ok f k f1 g))
