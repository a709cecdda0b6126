-- ===== src/Stream/Supply/Refill.antt =====
-- A refill of the buffer of src/stream.cpp takes the next payload of the stream.
use adbcpp.Base.{
  ℕ, ◌<◌, ◌≡◌, refl, sym, ap, ◌∙◌, List, [], ◌∷◌, ◌++◌, arith, length, true, false, Option-cases,
  inl, inr, leb, ◌≢◌, drop-all, leb→le,
}
use adbcpp.Outcome.{ok}
use adbcpp.Transport.{weight}
use adbcpp.Session.Receiving.{awaiting}
use adbcpp.Session.Sending.{sending, flatten}
use adbcpp.Connection.{Connection}
use adbcpp.Stream.{Stream, Channel, refill, receive_more}
use adbcpp.Stream.Steps.{chan, ack}
use adbcpp.Stream.Next.{written, ended, unexpected, next_event, receive_more-next, next_event-All}
use adbcpp.Stream.Payloads.{payloads, payloads-next, payloads-none}
use adbcpp.Stream.Supply.{filled, Supplies}

refill_none :
    (d : Channel)
    → leb (length d.stream.incoming) d.stream.incoming_offset ≡ false
    → refill d ≡ (ok tt, d)
unfolding refill
refill_none d h = rw h

refill_some :
    (d e : Channel)
    → leb (length d.stream.incoming) d.stream.incoming_offset ≡ true
    → receive_more d ≡ (ok true, e)
    → refill d ≡ (ok tt, e)
unfolding refill
refill_some d e h r = rw (h, r)

module _ (c : Connection) (s : Stream) (limit : ℕ) (tape : List ℕ) (d : Channel)
    (u : Supplies c s limit tape d) where
  pub unchanged : leb (length u.incoming) u.offset ≡ false → refill d ≡ (ok tt, d)
  unchanged h =
      refill_none d
        (ap (λ (x : Channel). leb (length x.stream.incoming) x.stream.incoming_offset) u.is ∙ h)

  -- A refill with nothing buffered: a payload is there afterwards, and the link has less to deliver.
  pub record Refilled : Type 0 where
    pub after : Channel
    pub weighs : ℕ
    pub runs : refill d ≡ (ok tt, after)
    pub supplies : Supplies c s weighs tape after
    pub lighter : weighs < weight u.link.arrivals

  nothing_buffered :
      leb (length u.incoming) u.offset ≡ true → flatten (payloads s.local_id u.frames) ≡ tape
  nothing_buffered h =
      ap (λ t. t ++ flatten (payloads s.local_id u.frames))
        (sym (drop-all u.offset u.incoming (leb→le (length u.incoming) u.offset h)))
      ∙ u.holds

  dry :
      leb (length u.incoming) u.offset ≡ true → 0 < length tape → payloads s.local_id u.frames ≢ []
  dry h p e =
      let z : flatten (payloads s.local_id u.frames) ≡ [] = ap flatten e in
      absurd (omega (arith, ap length (nothing_buffered h), ap length z))

  pub refilled : leb (length u.incoming) u.offset ≡ true → 0 < length tape → Refilled
  refilled h p =
      let next = receive_more-next c (filled s u.incoming u.offset) u.rest u.frames u.link in
      elim (Option-cases (next_event s.local_id u.frames)) [
        | inl e ↦ absurd (dry h p (payloads-none s.local_id u.frames e))
        | inr ((ended, gs), e) ↦ absurd (dry h p (payloads-next s.local_id u.frames ended gs e))
        | inr ((unexpected, gs), e) ↦
            absurd (dry h p (payloads-next s.local_id u.frames unexpected gs e))
        | inr ((written q, gs), e) ↦
            let k = next (written q) gs u.accepts u.well u.delivers e in
            let after = chan c (sending (awaiting u.link k.after) (ack s ∷ [])) (filled s q 0) in
            record {
              after = after;
              weighs = weight k.after;
              runs =
                  refill_some d after
                    (ap (λ (x : Channel). leb (length x.stream.incoming) x.stream.incoming_offset)
                        u.is
                      ∙ h)
                    (ap receive_more u.is ∙ k.runs);
              supplies = record {
                link = sending (awaiting u.link k.after) (ack s ∷ []);
                incoming = q;
                offset = 0;
                frames = gs;
                rest = u.rest;
                is = refl;
                accepts = u.accepts;
                well = next_event-All s.local_id u.frames (written q) gs u.well e;
                delivers = k.remains;
                holds =
                    sym (ap flatten (payloads-next s.local_id u.frames (written q) gs e))
                    ∙ nothing_buffered h;
                within = omega arith;
              };
              lighter = k.lighter;
            }
      ]
