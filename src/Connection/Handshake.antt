-- ===== src/Connection/Handshake.antt =====
-- `Connection::connect` of src/connection.cpp follows the dialogue of its handshake.
use adbcpp.Base.{
  ℕ, ◌≡◌, refl, sym, ap, ◌∙◌, List, [], ◌∷◌, ◌++◌, append_assoc, append-nil, arith, Bool, true,
  false, All, length, IsU32, codes, ◌≤◌, if◌then◌else◌, length-append,
}
use adbcpp.Outcome.{Result, Status, ok, err, stuck}
use adbcpp.Outcome.Exec.{bind_assoc}
use adbcpp.Transport.{Arrival, Link}
use adbcpp.Transport.Deliver.{deliverable}
use adbcpp.Protocol.Commands.{cnxn, auth, auth_signature, version, max_data}
use adbcpp.Protocol.Message.Checks.{data_length_of-ok}
use adbcpp.Session.{Frame}
use adbcpp.Session.Frames.{wire, frame_bytes, IsFrame}
use adbcpp.Session.Receiving.{awaiting, Receives, receive-frame}
use adbcpp.Session.Sending.{sending, transfers, all_transfers, all_transfers-append}
use adbcpp.Connection
use adbcpp.Connection.{
  Connection, Signer, Build, fresh, delayed_ack_feature, system_identity, make_auth, answer_token,
  offer_key, authenticate, finish, connect_message, handshake, connect,
}
use adbcpp.Connection.Calls.{linked, send-linked, message_frame}
use adbcpp.Connection.Dialogue.{
  Stage, greeted, signed, offered, greeted_listens, offered_listens, auth_frame, key_frame, no_key,
  unexpected, Step, trusted, stranger, challenge, unsigned, offer, keyless, unanswered, Talks,
  done_accepted, done_refused, step,
}
use adbcpp.Connection.Replies.{
  asking, asked_in, concluded, settle, established, outcome, remaining, then_finish, differs,
  auth-true, auth_ne, at_other, at_asked, offer_empty, answers_token, fails_token, offers,
  Listens-AsksKey, hears, finish-cnxn, finish-other, quiet, single,
}

module _ (public_key : List ℕ) (signer : Signer) (adv : Bool) where
  -- One step: what is left of the handshake is what is left in the next stage, over the link that
  -- the frames of the step have gone to.
  step_runs :
      {s t : Stage} {f : Frame} {sent : List Frame} {rest : List ℕ} (c : Connection) (l : Link)
      → l.verdicts ≡ []
      → Step public_key signer s f sent t
      → (k : Receives l f rest)
      → concluded (remaining public_key signer adv s (linked (asking c (asked_in s)) l))
        ≡ concluded (
            remaining public_key signer adv t
              (linked (asking c (asked_in t)) (sending (awaiting l k.after) (all_transfers sent))))
  step_runs c l v (trusted {asked = asked} f w e) k =
      let later = awaiting l k.after in
      ap concluded (
        hears public_key signer adv c l k w
        ∙ at_other public_key signer adv f (linked (asking c asked) later) w (rw e)
        ∙ finish-cnxn public_key signer adv f (linked (asking c asked) later) e)
      ∙ ap (λ x. concluded (settle adv f (linked (asking c asked) x)))
          (sym (quiet public_key signer adv later))
  step_runs c l v (stranger {asked = asked} f w n m) k =
      let later = awaiting l k.after in
      ap concluded (
        hears public_key signer adv c l k w
        ∙ at_other public_key signer adv f (linked (asking c asked) later) w
            (differs f.header.command auth m)
        ∙ finish-other public_key signer adv f (linked (asking c asked) later) n)
      ∙ ap (λ x. (err unexpected, x)) (sym (quiet public_key signer adv later))
  step_runs c l v (challenge f sign signature h e q u) k =
      let later = awaiting l k.after in
      let reply : Frame = auth_frame auth_signature signature in
      let goes =
        answers_token public_key signer adv (asking c false) later v f (auth-true f h) sign
          signature e q u in
      ap concluded (
        hears public_key signer adv c l k greeted_listens
        ∙ ap (then_finish public_key signer adv) goes
        ∙ bind_assoc Connection.receive (offer_key public_key) (finish adv)
            (linked (asking c false) (sending later (transfers reply))))
      ∙ ap (λ x. concluded (remaining public_key signer adv signed (linked (asking c false) x)))
          (sym (single public_key signer adv later reply))
  step_runs c l v (unsigned f sign x h e q) k =
      let later = awaiting l k.after in
      ap concluded (
        hears public_key signer adv c l k greeted_listens
        ∙ ap (then_finish public_key signer adv) (
            fails_token public_key signer adv (asking c false) later v f (auth-true f h) sign x e
              q))
      ∙ ap (λ y. (err x, y)) (sym (quiet public_key signer adv later))
  step_runs c l v (offer {s = s} f a h n u) k =
      let later = awaiting l k.after in
      let asks = auth-true f h in
      ap concluded (
        hears public_key signer adv c l k (Listens-AsksKey public_key signer adv c l v f asks a)
        ∙ at_asked public_key signer adv (linked (asking c (asked_in s)) later) f asks a
        ∙ ap (then_finish public_key signer adv)
            (offers public_key signer adv (asking c (asked_in s)) later v f asks n u))
      ∙ ap (λ x. concluded (remaining public_key signer adv offered (linked (asking c true) x)))
          (sym (single public_key signer adv later (key_frame public_key)))
  step_runs c l v (keyless {s = s} f a h n) k =
      let later = awaiting l k.after in
      let asks = auth-true f h in
      ap concluded (
        hears public_key signer adv c l k (Listens-AsksKey public_key signer adv c l v f asks a)
        ∙ at_asked public_key signer adv (linked (asking c (asked_in s)) later) f asks a
        ∙ ap (then_finish public_key signer adv)
            (offer_empty public_key signer adv (linked (asking c (asked_in s)) later) f asks n))
      ∙ ap (λ y. (err no_key, y)) (sym (quiet public_key signer adv later))
  step_runs c l v (unanswered f h) k =
      let later = awaiting l k.after in
      ap concluded (
        hears public_key signer adv c l k offered_listens
        ∙ finish-other public_key signer adv f (linked (asking c true) later) (auth_ne f h))
      ∙ ap (λ y. (err unexpected, y)) (sym (quiet public_key signer adv later))

  -- The end of the handshake: the answer of `connect`, over the link that all frames have gone to,
  -- which goes on with the bytes behind the last frame that was heard.
  pub record Concludes (end : Stage) (sent : List Frame) (bytes : List ℕ) (l : Link)
      (r : Result Connection × Link) : Type 0 where
    pub after : List Arrival
    pub runs : r ≡ (
      outcome adv end (sending (awaiting l after) (all_transfers sent)),
      sending (awaiting l after) (all_transfers sent),
    )
    pub remains : deliverable after ≡ bytes

  Concludes-step :
      {end : Stage} {more : List Frame} {bytes : List ℕ} {r q : Result Connection × Link}
      (sent : List Frame) (l : Link) (after : List Arrival)
      → r ≡ q
      → Concludes end more bytes (sending (awaiting l after) (all_transfers sent)) q
      → Concludes end (sent ++ more) bytes l r
  Concludes-step {end} {more} sent l after e h = record {
    after = h.after;
    runs =
        e
        ∙ h.runs
        ∙ ap (λ w. at_end (record l { arrivals = h.after; written = w }))
            (append_assoc l.written (all_transfers sent) (all_transfers more)
              ∙ ap (λ t. l.written ++ t) (sym (all_transfers-append sent more)));
    remains = h.remains;
  }
    where
      at_end : Link → Result Connection × Link
      at_end x = (outcome adv end x, x)

  talks_run :
      {s end : Stage} {fs sent left : List Frame} (rest : List ℕ) (l : Link)
      → Talks public_key signer s fs sent end left
      → l.verdicts ≡ []
      → All IsFrame fs
      → deliverable l.arrivals ≡ wire fs ++ rest
      → Concludes end sent
          (wire left ++ rest)
          l
          (concluded (remaining public_key signer adv s (linked (asking (fresh l) (asked_in s)) l)))
  talks_run rest l (done_accepted asked f fs) v h d = record {
    after = l.arrivals;
    runs = ap (λ x. (ok (established adv asked f x), x)) (sym (quiet public_key signer adv l));
    remains = d;
  }
  talks_run rest l (done_refused e fs) v h d = record {
    after = l.arrivals;
    runs = ap (λ x. (err e, x)) (sym (quiet public_key signer adv l));
    remains = d;
  }
  talks_run rest l
        (step {s = s} {t = t} {end = end} {f = f} {fs = fs} {sent = sent} {more = more} st talk) v
        (hf, h) d =
      let k =
        receive-frame l f (wire fs ++ rest) hf (d ∙ append_assoc (frame_bytes f) (wire fs) rest) in
      let next : Link = sending (awaiting l k.after) (all_transfers sent) in
      Concludes-step sent l k.after (step_runs (fresh l) l v st k)
        (talks_run rest next talk v h k.remains)

-- The host's CNXN.
abbrev pub identity_frame : Build → Bool → Frame
identity_frame b adv = message_frame cnxn version max_data (system_identity b adv)

abbrev if_on : Bool → List ℕ → List ℕ
if_on on xs = if on then xs else []

length-if_on : (on : Bool) (xs : List ℕ) → length (if_on on xs) ≤ length xs
length-if_on true xs = omega arith
length-if_on false xs = omega arith

identity-IsU32 : (b : Build) (adv : Bool) → IsU32 (length (system_identity b adv))
unfolding system_identity
identity-IsU32 b adv =
    let zstd : List ℕ = if_on b.zstd (codes ",sendrecv_v2_zstd") in
    let lz4 : List ℕ = if_on b.lz4 (codes ",sendrecv_v2_lz4") in
    let brotli : List ℕ = if_on b.brotli (codes ",sendrecv_v2_brotli") in
    let names : List ℕ = codes ",sendrecv_v2" ++ (zstd ++ (lz4 ++ brotli)) in
    let last : List ℕ = if_on adv (codes "," ++ delayed_ack_feature) in
    omega (
      arith,
      length-append (if_on b.compression names) last,
      length-if_on b.compression names,
      length-append zstd (lz4 ++ brotli),
      length-append lz4 brotli,
      length-if_on b.zstd (codes ",sendrecv_v2_zstd"),
      length-if_on b.lz4 (codes ",sendrecv_v2_lz4"),
      length-if_on b.brotli (codes ",sendrecv_v2_brotli"),
      length-if_on adv (codes "," ++ delayed_ack_feature),
    )

connect-concluded :
    (b : Build) (public_key : List ℕ) (signer : Signer) (adv : Bool) (l : Link)
    → connect b public_key signer adv l ≡ concluded (handshake b public_key signer adv (fresh l))
unfolding connect
connect-concluded b public_key signer adv l = cases (handshake b public_key signer adv (fresh l))
  where
    cases :
        (x : Status × Connection)
        → (elim x.0 [ ok _ ↦ ok x.1 | err e ↦ err e | stuck ↦ stuck ], x.1.session.link)
          ≡ concluded x
    cases (ok _, c) = refl
    cases (err e, c) = refl
    cases (stuck, c) = refl

greets :
    (b : Build) (public_key : List ℕ) (signer : Signer) (adv : Bool) (l : Link)
    → l.verdicts ≡ []
    → handshake b public_key signer adv (fresh l)
      ≡ remaining public_key signer adv greeted
          (linked (asking (fresh l) false) (sending l (transfers (identity_frame b adv))))
unfolding handshake
greets b public_key signer adv l v = rw (
  data_length_of-ok (system_identity b adv) (identity-IsU32 b adv),
  send-linked (fresh l) l (identity_frame b adv).header (system_identity b adv) v refl,
)

-- On a link that accepts every transfer and delivers the frames of a dialogue, `connect` sends its
-- CNXN, then the frames of the dialogue, and nothing else, and ends as the dialogue ends: with a
-- connection that holds the version, the payload limit, the features and the serial of the device's
-- CNXN, and whether the user was asked to accept the key; or with the error of the dialogue. It
-- does not read past the last frame that it heard.
pub connect-Talks :
    (b : Build) (public_key : List ℕ) (signer : Signer) (adv : Bool) (l : Link)
    (fs sent left : List Frame) (end : Stage) (rest : List ℕ)
    → Talks public_key signer greeted fs sent end left
    → l.verdicts ≡ []
    → All IsFrame fs
    → deliverable l.arrivals ≡ wire fs ++ rest
    → Concludes public_key signer adv end
        (identity_frame b adv ∷ sent)
        (wire left ++ rest)
        l
        (connect b public_key signer adv l)
connect-Talks b public_key signer adv l fs sent left end rest talk v h d =
    Concludes-step public_key signer adv (identity_frame b adv ∷ []) l l.arrivals
      (connect-concluded b public_key signer adv l
        ∙ ap concluded (greets b public_key signer adv l v)
        ∙ ap
            (λ t. concluded (
              remaining public_key signer adv greeted
                (linked (asking (fresh l) false) (sending l t))))
            (sym (append-nil (transfers (identity_frame b adv)))))
      (talks_run public_key signer adv rest (sending l (all_transfers (identity_frame b adv ∷ [])))
        talk v h d)
