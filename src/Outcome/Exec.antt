-- ===== src/Outcome/Exec.antt =====
-- Operations on an object: the object that an operation leaves stands beside its result, also where
-- the result is an error, since what was done before a failure stays done.
use adbcpp.Base.{◌≡◌, refl}
use adbcpp.Outcome.{Error, Result, ok, err, stuck}

abbrev pub Exec {ℓ} : Type ℓ → Type ℓ → Type ℓ
Exec S A = S → Result A × S

module _ {ℓ} {S A : Type ℓ} where
  abbrev pub pure : A → Exec S A
  pure a s = (ok a, s)

  -- `return tl::unexpected(e)`
  abbrev pub fail : Error → Exec S A
  fail e s = (err e, s)

  abbrev pub lift : Result A → Exec S A
  lift r s = (r, s)

module _ {ℓ} {S A B : Type ℓ} where
  abbrev pub continue : Result A → (A → Exec S B) → Exec S B
  continue (ok a) f s = f a s
  continue (err e) f s = (err e, s)
  continue stuck f s = (stuck, s)

  infixl 10 ◌>>=◌ ◌>>◌
  abbrev pub ◌>>=◌ : Exec S A → (A → Exec S B) → Exec S B
  ◌>>=◌ m f s = continue (m s).0 f (m s).1

  abbrev pub ◌>>◌ : Exec S A → Exec S B → Exec S B
  m >> n = m >>= λ _. n

  pub bind-ok :
      (m : Exec S A) (f : A → Exec S B) (s : S) {a : A} {s' : S}
      → m s ≡ (ok a, s')
      → (m >>= f) s ≡ f a s'
  bind-ok m f s h = rw h

  pub bind-err :
      (m : Exec S A) (f : A → Exec S B) (s : S) {e : Error} {s' : S}
      → m s ≡ (err e, s')
      → (m >>= f) s ≡ (err e, s')
  bind-err m f s h = rw h

module _ {ℓ} {S A B : Type ℓ} where
  continue_ok :
      (r : Result A × S) (f : A → Exec S B) {b : B} {s' : S}
      → continue r.0 f r.1 ≡ (ok b, s')
      → (a : A) × (s1 : S) × (r ≡ (ok a, s1)) × (f a s1 ≡ (ok b, s'))
  continue_ok (ok a, s1) f h = (a, s1, refl, h)
  continue_ok (err e, s1) f h = absurd (cc)
  continue_ok (stuck, s1) f h = absurd (cc)

  -- What works in all worked in its parts.
  pub bind_ok :
      (m : Exec S A) (f : A → Exec S B) (s : S) {b : B} {s' : S}
      → (m >>= f) s ≡ (ok b, s')
      → (a : A) × (s1 : S) × (m s ≡ (ok a, s1)) × (f a s1 ≡ (ok b, s'))
  bind_ok m f s h = continue_ok (m s) f h

module _ {ℓ} {S A B C : Type ℓ} where
  continue_assoc :
      (r : Result A) (f : A → Exec S B) (g : B → Exec S C) (s : S)
      → continue (continue r f s).0 g (continue r f s).1 ≡ continue r (λ a. f a >>= g) s
  continue_assoc (ok a) f g s = refl
  continue_assoc (err e) f g s = refl
  continue_assoc stuck f g s = refl

  pub bind_assoc :
      (m : Exec S A) (f : A → Exec S B) (g : B → Exec S C) (s : S)
      → (m >>= f >>= g) s ≡ (m >>= (λ a. f a >>= g)) s
  bind_assoc m f g s = continue_assoc (m s).0 f g (m s).1
