-- ===== src/Stream/Supply/Filling.antt =====
-- `Stream::read` takes its bytes off what the device writes to the stream, however the device cuts
-- it into WRTEs.
use adbcpp.Base.{
  ℕ, zero, suc, ◌+◌, ◌-◌, ◌≤◌, ◌≡◌, refl, sym, ap, ◌∙◌, List, ◌++◌, arith, length, take, drop, min,
  length-append, length-take, length-drop, take-append_le, drop-append_le, drop_add, take_add,
  Bool-cases, inl, inr, leb, take-append, drop-append, leb→not_le,
}
use mathlib.Core.Path.{subst}
use adbcpp.Outcome.{Result, ok}
use adbcpp.Outcome.Exec.{pure, ◌>>=◌}
use adbcpp.Transport.{weight}
use adbcpp.Session.Sending.{flatten}
use adbcpp.Connection.{Connection}
use adbcpp.Stream
use adbcpp.Stream.{Stream, Channel, buffered, refill, take_buffered, fill, receive_more}
use adbcpp.Stream.Steps.{chan}
use adbcpp.Stream.Payloads.{payloads}
use adbcpp.Stream.Supply.{filled, Supplies, Takes, bounded, Takes-weaken, Takes-runs}
use adbcpp.Stream.Supply.Refill.{unchanged, refilled}

-- `take_buffered` and the rest of a round of `fill`.
abbrev round : ℕ → ℕ → Channel → Result (List ℕ) × Channel
round fuel n = do bytes ← take_buffered n; rest ← fill fuel (n - length bytes); pure (bytes ++ rest)

round_runs :
    (fuel n : ℕ) (d e f : Channel) (xs ys : List ℕ)
    → take_buffered n d ≡ (ok xs, e)
    → fill fuel (n - length xs) e ≡ (ok ys, f)
    → round fuel n d ≡ (ok (xs ++ ys), f)
round_runs fuel n d e f xs ys h g = rw (h, g)

module _ (c : Connection) (s : Stream) (limit : ℕ) where
  -- The claim on `fill`, for a fuel.
  abbrev Filling : ℕ → Type 0
  Filling fuel =
      (n : ℕ) (tape : List ℕ) (d : Channel)
      → Supplies c s limit tape d
      → n ≤ length tape
      → n + limit ≤ fuel
      → Takes c s limit n tape (fill fuel n d)

  -- The channel with `k` more of the buffered bytes handed out.
  advanced :
      (k : ℕ) (tape : List ℕ) (d : Channel) (u : Supplies c s limit tape d)
      → k ≤ length (drop u.offset u.incoming)
      → Supplies c s limit (drop k tape) (chan c u.link (filled s u.incoming (u.offset + k)))
  advanced k tape d u h = record {
    link = u.link;
    incoming = u.incoming;
    offset = u.offset + k;
    frames = u.frames;
    rest = u.rest;
    is = refl;
    accepts = u.accepts;
    well = u.well;
    delivers = u.delivers;
    holds =
        ap (λ t. t ++ flatten (payloads s.local_id u.frames)) (drop_add u.offset k u.incoming)
        ∙ sym
            (drop-append_le k (drop u.offset u.incoming) (flatten (payloads s.local_id u.frames)) h)
        ∙ ap (drop k) u.holds;
    within = u.within;
  }

  front :
      (k : ℕ) (tape : List ℕ) (d : Channel) (u : Supplies c s limit tape d)
      → k ≤ length (drop u.offset u.incoming)
      → take k (drop u.offset u.incoming) ≡ take k tape
  front k tape d u h =
      sym (take-append_le k (drop u.offset u.incoming) (flatten (payloads s.local_id u.frames)) h)
      ∙ ap (take k) u.holds

  taken :
      (n : ℕ) (tape : List ℕ) (d : Channel) (u : Supplies c s limit tape d)
      → let k = min (length u.incoming - u.offset) n in
        take_buffered n d ≡ (
          ok (take k (drop u.offset u.incoming)),
          chan c u.link (filled s u.incoming (u.offset + k)),
        )
  unfolding take_buffered
  taken n tape d u = rw u.is

  round-Takes :
      (fuel n : ℕ) (tape : List ℕ) (d : Channel) (u : Supplies c s limit tape d)
      → Filling fuel
      → n ≤ length tape
      → n - min (length u.incoming - u.offset) n + limit ≤ fuel
      → Takes c s limit n tape (round fuel n d)
  round-Takes fuel n tape d u go h f =
      let k = min (length u.incoming - u.offset) n in
      let xs = take k (drop u.offset u.incoming) in
      let small : k ≤ length (drop u.offset u.incoming) =
        omega (arith, length-drop u.offset u.incoming) in
      let size : length xs ≡ k = omega (arith, length-take k (drop u.offset u.incoming)) in
      let later = chan c u.link (filled s u.incoming (u.offset + k)) in
      let next =
        go (n - k) (drop k tape) later (advanced k tape d u small)
          (omega (arith, length-drop k tape)) f in
      let e : k + (n - k) ≡ n = omega arith in
      record {
        after = next.after;
        runs =
            round_runs fuel n d later next.after xs (take (n - k) (drop k tape)) (taken n tape d u)
              (ap (λ j. fill fuel (n - j) later) size ∙ next.runs)
            ∙ ap (λ t. (ok (t ++ take (n - k) (drop k tape)), next.after)) (front k tape d u small)
            ∙ ap (λ t. (ok t, next.after))
                (sym (take_add k (n - k) tape) ∙ ap (λ j. take j tape) e);
        left =
            subst (λ t. Supplies c s limit t next.after)
              (sym (drop_add k (n - k) tape) ∙ ap (λ j. drop j tape) e) next.left;
      }

fill-round :
    (fuel n : ℕ) (d e : Channel)
    → refill d ≡ (ok tt, e)
    → fill (suc fuel) (suc n) d ≡ round fuel (suc n) e
unfolding fill
fill-round fuel n d e h = rw h

fill-Takes : (fuel : ℕ) (c : Connection) (s : Stream) (limit : ℕ) → Filling c s limit fuel
unfolding fill
fill-Takes zero c s limit zero tape d u h f = record { after = d; runs = refl; left = u }
fill-Takes (suc fuel) c s limit zero tape d u h f = record { after = d; runs = refl; left = u }
fill-Takes zero c s limit (suc n) tape d u h f = absurd (omega arith)
fill-Takes (suc fuel) c s limit (suc n) tape d u h f =
    elim (Bool-cases (leb (length u.incoming) u.offset)) [
      | inr more ↦ Takes-runs (fill-round fuel n d d (unchanged c s limit tape d u more)) (
          round-Takes c s limit fuel (suc n) tape d u (fill-Takes fuel c s limit) h
            (omega (arith, leb→not_le (length u.incoming) u.offset more)))
      | inl less ↦
          let k = refilled c s limit tape d u less (omega arith) in
          let v = k.supplies in
          Takes-weaken (omega (arith, k.lighter, u.within)) (
            Takes-runs (fill-round fuel n d k.after k.runs) (
              round-Takes c s k.weighs fuel (suc n) tape k.after v (fill-Takes fuel c s k.weighs) h
                (omega (arith, k.lighter, u.within))))
    ]

-- A read of no more than what is buffered and written takes its bytes off the front of that, however
-- they come in: in WRTEs of any size, the empty ones included, and between frames of other streams.
pub read-Takes :
    (c : Connection) (s : Stream) (limit n : ℕ) (tape : List ℕ) (d : Channel)
    → Supplies c s limit tape d
    → n ≤ length tape
    → Takes c s limit n tape (Stream.read n d)
unfolding Stream.read
read-Takes c s limit n tape d u h =
    let w = weight u.link.arrivals in
    let e : weight d.connection.session.link.arrivals ≡ w =
      ap (λ (x : Channel). weight x.connection.session.link.arrivals) u.is in
    Takes-weaken u.within (
      fill-Takes (n + suc (weight d.connection.session.link.arrivals)) c s w n tape d
        (bounded w u (omega arith)) h (omega (arith, e)))

-- The same, for a front of the tape that is given.
pub read-front :
    (c : Connection) (s : Stream) (limit n : ℕ) (front rest : List ℕ) (d : Channel)
    → Supplies c s limit (front ++ rest) d
    → length front ≡ n
    → (after : Channel) × (Stream.read n d ≡ (ok front, after)) × Supplies c s limit rest after
read-front c s limit n front rest d u e =
    let t = read-Takes c s limit n (front ++ rest) d u (omega (arith, length-append front rest)) in
    (
      t.after,
      t.runs ∙ ap (λ bytes. (ok bytes, t.after)) (take-append n front rest e),
      subst (λ bytes. Supplies c s limit bytes t.after) (drop-append n front rest e) t.left,
    )
