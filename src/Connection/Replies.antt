-- ===== src/Connection/Replies.antt =====
-- The parts of `Connection::connect` in src/connection.cpp, one frame at a time.
use adbcpp.Base.{
  ℕ, ◌≡◌, ◌≢◌, refl, ap, List, [], ◌∷◌, ◌++◌, append-nil, arith, Bool, true, false, length, ◌==◌,
  is_empty, some, IsU32, contains, ◌&&◌,
}
use adbcpp.Outcome.{Result, Status, Error, ok, err, stuck}
use adbcpp.Outcome.Exec.{Exec, fail, continue, ◌>>=◌}
use adbcpp.Transport.{Link}
use adbcpp.Protocol.Commands.{cnxn, auth, auth_signature, auth_public_key}
use adbcpp.Protocol.Message.Checks.{data_length_of-ok}
use adbcpp.Session.{Frame}
use adbcpp.Session.Receiving.{awaiting, Receives}
use adbcpp.Session.Sending.{sending, transfers, all_transfers}
use adbcpp.Connection
use adbcpp.Connection.{
  Connection, Signer, Build, fresh, delayed_ack_feature, system_identity, make_auth, answer_token,
  offer_key, authenticate, finish, connect_message, handshake, connect,
}
use adbcpp.Connection.Banner.{parse_features, parse_serial}
use adbcpp.Connection.Calls.{linked, receive-linked, send-linked}
use adbcpp.Connection.Dialogue.{
  Stage, greeted, signed, offered, accepted, refused, Listens, greeted_listens, signed_listens,
  offered_listens, AsksKey, signed_asks, greeted_asks, auth_frame, key_frame, no_key, unexpected,
}

-- The connection in a stage: whether it has asked for the key.
abbrev pub asking : Connection → Bool → Connection
asking c asked = record c { requested_authorization = asked }

abbrev pub asked_in : Stage → Bool
asked_in greeted = false
asked_in signed = false
asked_in offered = true
asked_in (accepted asked f) = asked
asked_in (refused e) = false

-- What a CNXN leaves in the connection.
abbrev pub settled : Bool → Frame → Connection → Connection
settled advertise_delayed_ack f c = record c {
  device_version = f.header.arg0;
  peer_max_data = f.header.arg1;
  features = parse_features f.payload;
  serial = parse_serial f.payload;
  delayed_ack = advertise_delayed_ack && contains (parse_features f.payload) delayed_ack_feature;
}

abbrev pub settle : Bool → Frame → Exec Connection Unit
settle adv f c = (ok tt, settled adv f c)

-- The connection over `l` that a CNXN makes.
abbrev pub established : Bool → Bool → Frame → Link → Connection
established adv asked f l = settled adv f (asking (fresh l) asked)

-- What `connect` returns at the end of the dialogue.
abbrev pub outcome : Bool → Stage → Link → Result Connection
outcome adv (accepted asked f) l = ok (established adv asked f l)
outcome adv (refused e) l = err e
outcome adv _ l = stuck

-- What `connect` makes of the result of the handshake.
abbrev pub concluded : Status × Connection → Result Connection × Link
concluded (ok _, c) = (ok c, c.session.link)
concluded (err e, c) = (err e, c.session.link)
concluded (stuck, c) = (stuck, c.session.link)

make_auth-frame :
    (type : ℕ) (payload : List ℕ)
    → IsU32 (length payload)
    → make_auth type payload ≡ ok (auth_frame type payload).header
unfolding make_auth
make_auth-frame type payload u = rw (data_length_of-ok payload u, make_auth)

pub differs : (a b : ℕ) → a ≢ b → (a == b) ≡ false
differs a b n = ground arith

pub auth-true : (f : Frame) → f.header.command ≡ auth → (f.header.command == auth) ≡ true
auth-true f h = rw h

pub auth_ne : (f : Frame) → f.header.command ≡ auth → f.header.command ≢ cnxn
auth_ne f h e = omega arith

is_empty-false : (xs : List ℕ) → xs ≢ [] → is_empty xs ≡ false
is_empty-false [] h = absurd (h refl)
is_empty-false (x ∷ xs) h = refl

module _ (public_key : List ℕ) (signer : Signer) (adv : Bool) where
  -- What is left of the handshake in each stage.
  abbrev pub heard : Stage → Frame → Exec Connection Unit
  heard greeted f = authenticate public_key signer f >>= finish adv
  heard signed f = offer_key public_key f >>= finish adv
  heard _ f = finish adv f

  abbrev pub remaining : Stage → Exec Connection Unit
  remaining (accepted asked f) = settle adv f
  remaining (refused e) = fail e
  remaining s = Connection.receive >>= heard s

  pub at_other :
      {s : Stage} {asked : Bool} (f : Frame) (c : Connection)
      → Listens s asked
      → (f.header.command == auth) ≡ false
      → heard s f c ≡ finish adv f c
  unfolding authenticate offer_key
  at_other f c greeted_listens h = rw h
  at_other f c signed_listens h = rw h
  at_other f c offered_listens h = refl

  module _ (c : Connection) (f : Frame) (h : (f.header.command == auth) ≡ true) where
    pub at_asked :
        {s : Stage} → AsksKey signer s → heard s f c ≡ (offer_key public_key f >>= finish adv) c
    unfolding authenticate answer_token
    at_asked signed_asks = refl
    at_asked (greeted_asks e) = rw (h, e)

    pub offer_empty : public_key ≡ [] → offer_key public_key f c ≡ (err no_key, asking c true)
    unfolding offer_key
    offer_empty e = rw (h, e)

  -- The link, once the frame has come and `g` has gone.
  module _ (c : Connection) (l : Link) (v : l.verdicts ≡ []) (f : Frame)
      (h : (f.header.command == auth) ≡ true) where
    abbrev next_link : Frame → Link
    next_link g = sending l (transfers g)

    pub answers_token :
        (sign : List ℕ → Result (List ℕ)) (signature : List ℕ)
        → signer ≡ some sign
        → sign f.payload ≡ ok signature
        → IsU32 (length signature)
        → authenticate public_key signer f (linked c l)
          ≡ (Connection.receive >>= offer_key public_key)
              (linked c (next_link (auth_frame auth_signature signature)))
    unfolding authenticate answer_token
    answers_token sign signature e q u = rw (
      h,
      e,
      q,
      make_auth-frame auth_signature signature u,
      send-linked c l (auth_frame auth_signature signature).header signature v refl,
    )

    pub fails_token :
        (sign : List ℕ → Result (List ℕ)) (e : Error)
        → signer ≡ some sign
        → sign f.payload ≡ err e
        → authenticate public_key signer f (linked c l) ≡ (err e, linked c l)
    unfolding authenticate answer_token
    fails_token sign e p q = rw (h, p, q)

    pub offers :
        public_key ≢ []
        → IsU32 (length (public_key ++ 0 ∷ []))
        → offer_key public_key f (linked c l)
          ≡ Connection.receive (linked (asking c true) (next_link (key_frame public_key)))
    unfolding offer_key
    offers n u = rw (
      h,
      is_empty-false public_key n,
      make_auth-frame auth_public_key (public_key ++ 0 ∷ []) u,
      send-linked (asking c true) l (key_frame public_key).header (public_key ++ 0 ∷ []) v refl,
    )

    pub Listens-AsksKey : {s : Stage} → AsksKey signer s → Listens s (asked_in s)
    Listens-AsksKey signed_asks = signed_listens
    Listens-AsksKey (greeted_asks e) = greeted_listens

  pub hears :
      {s : Stage} {asked : Bool} (c : Connection) (l : Link) {f : Frame} {rest : List ℕ}
      (k : Receives l f rest)
      → Listens s asked
      → remaining s (linked (asking c (asked_in s)) l)
        ≡ heard s f (linked (asking c asked) (awaiting l k.after))
  hears c l k greeted_listens = rw (receive-linked (asking c false) l k)
  hears c l k signed_listens = rw (receive-linked (asking c false) l k)
  hears c l k offered_listens = rw (receive-linked (asking c true) l k)

  pub finish-cnxn :
      (f : Frame) (c : Connection) → f.header.command ≡ cnxn → finish adv f c ≡ settle adv f c
  unfolding finish
  finish-cnxn f c e = rw e

  pub finish-other :
      (f : Frame) (c : Connection) → f.header.command ≢ cnxn → finish adv f c ≡ (err unexpected, c)
  unfolding finish
  finish-other f c n = rw (differs f.header.command cnxn n)

  pub quiet : (l : Link) → sending l [] ≡ l
  quiet l = rw (append-nil l.written)

  abbrev pub then_finish : Result Frame × Connection → Status × Connection
  then_finish r = continue r.0 (finish adv) r.1

  pub single : (l : Link) (g : Frame) → sending l (all_transfers (g ∷ [])) ≡ sending l (transfers g)
  single l g = ap (λ t. sending l t) (append-nil (transfers g))
