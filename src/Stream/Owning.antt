-- ===== src/Stream/Owning.antt =====
-- Every stream is closed once, however its object is moved (src/stream.cpp).
use adbcpp.Base.{
  ℕ, zero, suc, ◌+◌, ◌≡◌, refl, sym, ap, ◌∙◌, List, [], ◌∷◌, ◌++◌, append_assoc, append-nil, arith,
  Bool, true, false, some, ◌==◌, if◌then◌else◌, Bool-cases, Option-cases, inl, inr,
}
use mathlib.Core.Path.{subst}
use mathlib.Core.Option.{some-injective}
use adbcpp.Transport.{Link}
use adbcpp.Protocol.Commands.{clse}
use adbcpp.Protocol.Message.{encode}
use adbcpp.Session.Sending.{sending}
use adbcpp.Connection.{Connection}
use adbcpp.Stream.{Stream, close_now, make_empty_message}
use adbcpp.Stream.Steps.{linked, chan, send-linked}
use adbcpp.Stream.Moving.{
  Objects, at, replace_at, move_construct, move_assign, Operation, construct, assign, destroy,
  operate, operate_all,
}

-- A choice of streams by their identifiers.
abbrev pub Choice : Type 0
Choice = ℕ → ℕ → Bool

-- 1 for a stream that is chosen, and 1 for an object that owns such a stream.
abbrev pub chosen : Choice → Stream → ℕ
chosen p s = if p s.local_id s.remote_id then 1 else 0

abbrev pub own : Choice → Stream → ℕ
own p s = if s.closed then 0 else chosen p s

-- The number of the objects that own a chosen stream, and of the chosen among some streams.
abbrev pub owners : Choice → List Stream → ℕ
owners p [] = 0
owners p (s ∷ ss) = own p s + owners p ss

abbrev pub count : Choice → List Stream → ℕ
count p [] = 0
count p (s ∷ ss) = chosen p s + count p ss

-- The CLSE of a stream, and those of some.
abbrev pub clse_transfers : List Stream → List (List ℕ)
clse_transfers [] = []
clse_transfers (s ∷ ss) =
    encode (make_empty_message clse s.local_id s.remote_id) ∷ clse_transfers ss

clse_transfers-append :
    (ss ts : List Stream) → clse_transfers (ss ++ ts) ≡ clse_transfers ss ++ clse_transfers ts
clse_transfers-append [] ts = refl
clse_transfers-append (s ∷ ss) ts =
    ap (◌∷◌ (encode (make_empty_message clse s.local_id s.remote_id))) (clse_transfers-append ss ts)

count-append : (p : Choice) (ss ts : List Stream) → count p (ss ++ ts) ≡ count p ss + count p ts
count-append p [] ts = omega arith
count-append p (s ∷ ss) ts = omega (arith, count-append p ss ts)

owners-append : (p : Choice) (ss ts : List Stream) → owners p (ss ++ ts) ≡ owners p ss + owners p ts
owners-append p [] ts = omega arith
owners-append p (s ∷ ss) ts = omega (arith, owners-append p ss ts)

owners-replace_at :
    (p : Choice) (ss : List Stream) (i : ℕ) (old x : Stream)
    → at i ss ≡ some old
    → owners p (replace_at i x ss) + own p old ≡ owners p ss + own p x
owners-replace_at p [] i old x e = absurd (cc)
owners-replace_at p (s ∷ ss) zero old x e = omega (arith, ap (own p) (some-injective s old e))
owners-replace_at p (s ∷ ss) (suc i) old x e = omega (arith, owners-replace_at p ss i old x e)

at-replace_at :
    (ss : List Stream) (i j : ℕ) (x : Stream)
    → (i == j) ≡ false
    → at j (replace_at i x ss) ≡ at j ss
at-replace_at [] i j x n = refl
at-replace_at (s ∷ ss) zero zero x n = absurd (cc)
at-replace_at (s ∷ ss) zero (suc j) x n = refl
at-replace_at (s ∷ ss) (suc i) zero x n = refl
at-replace_at (s ∷ ss) (suc i) (suc j) x n = at-replace_at ss i j x (ground (arith, n))

-- The stream that the destructor of an object closes, if it owns one.
abbrev pub owned : Stream → List Stream
owned s = if s.closed then [] else s ∷ []

count-owned : (p : Choice) (s : Stream) → count p (owned s) ≡ own p s
count-owned p s = ground arith

quiet : (l : Link) → sending l [] ≡ l
quiet l = rw (append-nil l.written)

close_now-owned :
    (c : Connection) (l : Link) (s : Stream)
    → l.verdicts ≡ []
    → close_now (chan c l s)
      ≡ chan c (sending l (clse_transfers (owned s))) (record s { closed = true })
unfolding close_now make_empty_message
close_now-owned c l s v = elim (Bool-cases s.closed) [
  | inl e ↦ rw (close_now, e) (ap (λ x. chan c x (record s { closed = true })) (sym (quiet l)))
  | inr e ↦
      rw (close_now, e, send-linked c l (make_empty_message clse s.local_id s.remote_id) [] v refl)
]

-- What is left of an object that was moved from.
abbrev moved : Stream → List ℕ → Stream
moved s text = record s { service = text; incoming = []; closed = true }

-- What operations on objects over `l` have done: the streams that they closed, in order, each by a
-- CLSE that was written and nothing else was; and of every choice of streams, as many are closed or
-- still owned by an object as were owned before.
pub record Keeps (c : Connection) (l : Link) (before : List Stream) (o : Objects) : Type 0 where
  pub closes : List Stream
  pub over_link : o.connection ≡ linked c (sending l (clse_transfers closes))
  pub balance : (p : Choice) → owners p o.streams + count p closes ≡ owners p before

Keeps-idle :
    (c : Connection) (l : Link) (ss : List Stream)
    → Keeps c l ss (record { connection = linked c l; streams = ss })
Keeps-idle c l ss = record {
  closes = [];
  over_link = ap (linked c) (sym (quiet l));
  balance = λ p. omega arith;
}

Keeps-then :
    {c : Connection} {l : Link} {before : List Stream} {m o : Objects} (h : Keeps c l before m)
    → Keeps c (sending l (clse_transfers h.closes)) m.streams o
    → Keeps c l before o
Keeps-then {c} {l} h k = record {
  closes = h.closes ++ k.closes;
  over_link =
      k.over_link
      ∙ ap (λ w. linked c (record l { written = w }))
          (append_assoc l.written (clse_transfers h.closes) (clse_transfers k.closes)
            ∙ ap (λ t. l.written ++ t) (sym (clse_transfers-append h.closes k.closes)));
  balance = λ p. omega (arith, h.balance p, k.balance p, count-append p h.closes k.closes);
}

module _ (c : Connection) (l : Link) (ss : List Stream) where
  abbrev objects : Objects
  objects = record { connection = linked c l; streams = ss }

  Keeps-construct : (text : List ℕ) (j : ℕ) → Keeps c l ss (operate (construct text j) objects)
  unfolding operate move_construct
  Keeps-construct text j = elim (Option-cases (at j ss)) [
    | inl e ↦ rw e (Keeps-idle c l ss)
    | inr (other, e) ↦ rw e (record {
      closes = [];
      over_link = ap (linked c) (sym (quiet l));
      balance = λ p. omega (
        arith,
        owners-replace_at p ss j other (moved other text) e,
        owners-append p (replace_at j (moved other text) ss) (other ∷ []),
      );
    })
  ]

  Keeps-destroy : (i : ℕ) → l.verdicts ≡ [] → Keeps c l ss (operate (destroy i) objects)
  unfolding operate
  Keeps-destroy i v = elim (Option-cases (at i ss)) [
    | inl e ↦ rw e (Keeps-idle c l ss)
    | inr (s, e) ↦
        rw (e, close_now-owned c l s v)
          (record {
            closes = owned s;
            over_link = refl;
            balance = λ p.
                omega (
                  arith,
                  owners-replace_at p ss i s (record s { closed = true }) e,
                  count-owned p s,
                );
          })
  ]

  Keeps-assign :
      (text : List ℕ) (i j : ℕ) → l.verdicts ≡ [] → Keeps c l ss (operate (assign text i j) objects)
  unfolding operate move_assign move_construct
  Keeps-assign text i j v = elim (Bool-cases (i == j)) [
    | inl same ↦ rw same (Keeps-idle c l ss)
    | inr differs ↦ elim (Option-cases (at i ss)) [
      | inl e ↦ rw (differs, e) (Keeps-idle c l ss)
      | inr (this, e) ↦ elim (Option-cases (at j ss)) [
        | inl k ↦ rw (differs, e, k) (Keeps-idle c l ss)
        | inr (other, k) ↦
            rw (differs, e, k, close_now-owned c l this v)
              (record {
                closes = owned this;
                over_link = refl;
                balance = λ p. omega (
                  arith,
                  owners-replace_at p ss i this other e,
                  owners-replace_at p (replace_at i other ss) j other (moved other text)
                      (at-replace_at ss i j other differs ∙ k),
                  count-owned p this,
                );
              })
      ]
    ]
  ]

  Keeps-operate : (p : Operation) → l.verdicts ≡ [] → Keeps c l ss (operate p objects)
  Keeps-operate (construct text j) v = Keeps-construct text j
  Keeps-operate (assign text i j) v = Keeps-assign text i j v
  Keeps-operate (destroy i) v = Keeps-destroy i v

-- Whatever operations are made on stream objects over a link that accepts every transfer: all that
-- they write is a CLSE for each stream that they close, and among the streams that an object owned
-- before, of any choice of them by their identifiers, as many are closed by now as are no longer
-- owned by an object. So no stream is closed twice, and none is lost without its CLSE.
pub operate_all-Keeps :
    (c : Connection) (ss : List Stream) (ps : List Operation) (l : Link)
    → l.verdicts ≡ []
    → Keeps c l ss (operate_all ps (record { connection = linked c l; streams = ss }))
unfolding operate_all
operate_all-Keeps c ss [] l v = Keeps-idle c l ss
operate_all-Keeps c ss (p ∷ ps) l v =
    let k = Keeps-operate c l ss p v in
    let o = operate p (objects c l ss) in
    let after : Link = sending l (clse_transfers k.closes) in
    let same : o ≡ objects c after o.streams =
      ap (λ x. record { connection = x; streams = o.streams }) k.over_link in
    Keeps-then k (
      subst (λ x. Keeps c after o.streams (operate_all ps x)) (sym same)
        (operate_all-Keeps c o.streams ps after v))
