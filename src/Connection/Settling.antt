-- ===== src/Connection/Settling.antt =====
-- `Connection::connect` of src/connection.cpp hears three frames at most.
use adbcpp.Base.{
  ℕ, ◌≡◌, ◌≢◌, ◌⊎◌, inl, inr, refl, List, [], ◌∷◌, ◌++◌, All, arith, length, ◌==◌, ==_iff,
  Bool-cases, Bool, Option-cases, none, some, false, IsU32,
}
use adbcpp.Outcome.{Error, ok, err}
use mathlib.Core.Path.{subst}
use adbcpp.Transport.{Link}
use adbcpp.Transport.Deliver.{deliverable}
use adbcpp.Protocol.Commands.{cnxn, auth}
use adbcpp.Session.{Frame}
use adbcpp.Session.Frames.{wire, IsFrame}
use adbcpp.Connection.{Signer, Build, connect}
use adbcpp.Connection.Dialogue.{
  Stage, greeted, signed, offered, accepted, refused, Listens, greeted_listens, signed_listens,
  offered_listens, AsksKey, signed_asks, greeted_asks, unexpected, no_key, Step, trusted, stranger,
  challenge, unsigned, offer, keyless, unanswered, Talks, done_accepted, done_refused, step,
}
use adbcpp.Connection.Handshake.{Concludes, identity_frame, connect-Talks}

-- A signer that signs a token or fails, and whose signatures have a length that a header can hold.
abbrev pub Signs : Signer → Type 0
Signs none = Unit
Signs (some sign) =
    (token : List ℕ)
    → ((e : Error) × (sign token ≡ err e))
      ⊎ ((signature : List ℕ) × (sign token ≡ ok signature) × IsU32 (length signature))

-- The last stage is an end, and the frames behind are a tail of the frames.
abbrev pub HasEnded : Stage → Type 0
HasEnded (accepted asked f) = f.header.command ≡ cnxn
HasEnded (refused e) = Unit
HasEnded _ = ⊥

pub record Settled (public_key : List ℕ) (signer : Signer) (s : Stage) (fs : List Frame)
    : Type 0 where
  pub sent : List Frame
  pub end : Stage
  pub left : List Frame
  pub talks : Talks public_key signer s fs sent end left
  pub ended : HasEnded end

data Kind (f : Frame) : Type 0 where
  is_cnxn : f.header.command ≡ cnxn → Kind f
  is_auth : f.header.command ≡ auth → Kind f
  is_other : f.header.command ≢ cnxn → f.header.command ≢ auth → Kind f

kind : (f : Frame) → Kind f
kind f = elim (Bool-cases (f.header.command == cnxn)) [
  | inl c ↦ is_cnxn ((==_iff f.header.command cnxn).0 c)
  | inr c ↦ elim (Bool-cases (f.header.command == auth)) [
    | inl a ↦ is_auth ((==_iff f.header.command auth).0 a)
    | inr a ↦ is_other (unequal f.header.command cnxn c) (unequal f.header.command auth a)
  ]
]
  where
    unequal : (a b : ℕ) → (a == b) ≡ false → a ≢ b
    unequal a b h = ground arith

empty_or_not : (xs : List ℕ) → (xs ≡ []) ⊎ (xs ≢ [])
empty_or_not [] = inl refl
empty_or_not (x ∷ xs) = inr (λ e. cc)

module _ (public_key : List ℕ) (signer : Signer) (u : IsU32 (length (public_key ++ 0 ∷ []))) where
  abbrev Settles : Stage → List Frame → Type 0
  Settles = Settled public_key signer

  accepts :
      {s : Stage} {asked : Bool} (f : Frame) (fs : List Frame)
      → Listens s asked
      → f.header.command ≡ cnxn
      → Settles s (f ∷ fs)
  accepts {asked = asked} f fs w e = record {
    sent = [];
    end = accepted asked f;
    left = fs;
    talks = step (trusted f w e) (done_accepted asked f fs);
    ended = e;
  }

  rejects :
      {s : Stage} {asked : Bool} (f : Frame) (fs : List Frame)
      → Listens s asked
      → f.header.command ≢ cnxn
      → f.header.command ≢ auth
      → Settles s (f ∷ fs)
  rejects f fs w n m = record {
    sent = [];
    end = refused unexpected;
    left = fs;
    talks = step (stranger f w n m) (done_refused unexpected fs);
    ended = tt;
  }

  settle_offered : (f : Frame) (fs : List Frame) → Settles offered (f ∷ fs)
  settle_offered f fs = elim (kind f) [
    | is_cnxn e ↦ accepts f fs offered_listens e
    | is_other n m ↦ rejects f fs offered_listens n m
    | is_auth e ↦ record {
      sent = [];
      end = refused unexpected;
      left = fs;
      talks = step (unanswered f e) (done_refused unexpected fs);
      ended = tt;
    }
  ]

  goes_on :
      {s t : Stage} {f : Frame} {fs sent : List Frame}
      → Step public_key signer s f sent t
      → Settles t fs
      → Settles s (f ∷ fs)
  goes_on {sent = sent} st h = record {
    sent = sent ++ h.sent;
    end = h.end;
    left = h.left;
    talks = step st h.talks;
    ended = h.ended;
  }

  gives_up :
      {s : Stage} {f : Frame} (e : Error) (fs : List Frame)
      → Step public_key signer s f [] (refused e)
      → Settles s (f ∷ fs)
  gives_up e fs st = record {
    sent = [];
    end = refused e;
    left = fs;
    talks = step st (done_refused e fs);
    ended = tt;
  }

  asks :
      {s : Stage} (f g : Frame) (fs : List Frame)
      → AsksKey signer s
      → f.header.command ≡ auth
      → Settles s (f ∷ g ∷ fs)
  asks f g fs a e = elim (empty_or_not public_key) [
    | inl k ↦ gives_up no_key (g ∷ fs) (keyless f a e k)
    | inr k ↦ goes_on (offer f a e k u) (settle_offered g fs)
  ]

  settle_signed : (f g : Frame) (fs : List Frame) → Settles signed (f ∷ g ∷ fs)
  settle_signed f g fs = elim (kind f) [
    | is_cnxn e ↦ accepts f (g ∷ fs) signed_listens e
    | is_other n m ↦ rejects f (g ∷ fs) signed_listens n m
    | is_auth e ↦ asks f g fs signed_asks e
  ]

  challenged :
      (f g h : Frame) (fs : List Frame)
      → Signs signer
      → f.header.command ≡ auth
      → Settles greeted (f ∷ g ∷ h ∷ fs)
  challenged f g h fs signs e = elim (Option-cases signer) [
    | inl p ↦ asks f g (h ∷ fs) (greeted_asks p) e
    | inr (sign, p) ↦ elim ((subst Signs p signs) f.payload) [
      | inl (x, q) ↦ gives_up x (g ∷ h ∷ fs) (unsigned f sign x e p q)
      | inr (signature, q, w) ↦ goes_on (challenge f sign signature e p q w) (settle_signed g h fs)
    ]
  ]

  settle_greeted :
      (f g h : Frame) (fs : List Frame) → Signs signer → Settles greeted (f ∷ g ∷ h ∷ fs)
  settle_greeted f g h fs signs = elim (kind f) [
    | is_cnxn e ↦ accepts f (g ∷ h ∷ fs) greeted_listens e
    | is_other n m ↦ rejects f (g ∷ h ∷ fs) greeted_listens n m
    | is_auth e ↦ challenged f g h fs signs e
  ]

-- On a link that accepts every transfer and delivers three frames at least, with a key that a
-- header can hold and a signer that signs or fails, `connect` comes to an end: it follows a
-- dialogue whose end is a CNXN that was accepted or an error, and which it answers as the
-- dialogue's end says.
pub connect-settles :
    (b : Build) (public_key : List ℕ) (signer : Signer) (adv : Bool) (l : Link) (f g h : Frame)
    (fs : List Frame) (rest : List ℕ)
    → IsU32 (length (public_key ++ 0 ∷ []))
    → Signs signer
    → l.verdicts ≡ []
    → All IsFrame (f ∷ g ∷ h ∷ fs)
    → deliverable l.arrivals ≡ wire (f ∷ g ∷ h ∷ fs) ++ rest
    → (d : Settled public_key signer greeted (f ∷ g ∷ h ∷ fs)) × Concludes public_key signer adv
        d.end
        (identity_frame b adv ∷ d.sent)
        (wire d.left ++ rest)
        l
        (connect b public_key signer adv l)
connect-settles b public_key signer adv l f g h fs rest u signs v all d =
    let s = settle_greeted public_key signer u f g h fs signs in
    (
      s,
      connect-Talks b public_key signer adv l (f ∷ g ∷ h ∷ fs) s.sent s.left s.end rest s.talks v
          all d,
    )
