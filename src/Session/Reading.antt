-- ===== src/Session/Reading.antt =====
-- `read_exact` fills its buffer exactly when the link delivers that many bytes, however they are cut.
use adbcpp.Base.{
  ℕ, zero, suc, false, zero_or_pos, le_or_lt, ◌+◌, ◌-◌, ◌≤◌, ◌<◌, ◌≡◌, ◌⊎◌, inl, inr, refl, sym, ap,
  ◌∙◌, List, [], ◌++◌, arith, length, length-append, ◌==◌, take, drop, take-append_ge,
  drop-append_ge,
}
use adbcpp.Outcome.{Error, Result, ok, err, error, protocol}
use adbcpp.Outcome.Exec.{◌>>=◌}
use adbcpp.Transport.{Arrival, Link, weight, read}
use adbcpp.Transport.Deliver.{deliverable, ReadsSome, ReadsNone, read_some, read_none}
use adbcpp.Session.{read_loop, read_exact}

-- The buffer is filled with the next `n` bytes, and the rest is delivered to the next read.
pub record Fills (n : ℕ) (l : Link) (r : Result (List ℕ) × Link) : Type 0 where
  pub after : List Arrival
  pub runs : r ≡ (ok (take n (deliverable l.arrivals)), record l { arrivals = after })
  pub remains : deliverable after ≡ drop n (deliverable l.arrivals)
  pub enough : n ≤ length (deliverable l.arrivals)
  pub lighter : weight after + n ≤ weight l.arrivals

-- An error, which takes nothing but arrivals, since the link delivers fewer bytes.
pub record Breaks (n : ℕ) (l : Link) (r : Result (List ℕ) × Link) : Type 0 where
  pub after : List Arrival
  pub reason : Error
  pub lacks : length (deliverable l.arrivals) < n
  pub runs : r ≡ (err reason, record l { arrivals = after })
  pub lighter : weight after ≤ weight l.arrivals

-- One round of the loop, on a read that got some bytes and on one that got none.
round_some :
    (fuel n : ℕ) (l : Link) (r : ReadsSome (suc n) l l.arrivals)
    → read_loop (suc fuel) (suc n) l
      ≡ (read_loop fuel (suc n - length r.bytes) >>= λ rest s. (ok (r.bytes ++ rest), s))
          (record l { arrivals = r.after })
unfolding read_loop read
round_some fuel n l r =
    let got : (length r.bytes == 0) ≡ false = ground (arith, r.some_bytes) in rw (r.runs, got)

abbrev end_of_stream : Error
end_of_stream = error protocol "unexpected end of stream"

round_none :
    (fuel n : ℕ) (l : Link) (r : ReadsNone (suc n) l l.arrivals)
    → length (deliverable l.arrivals) < suc n
    → Breaks (suc n) l (read_loop (suc fuel) (suc n) l)
unfolding read_loop read
round_none fuel n l r d = elim r.runs [
  | inl e ↦ record {
    after = r.after;
    reason = end_of_stream;
    lacks = d;
    runs = rw e;
    lighter = r.lighter;
  }
  | inr (x, e) ↦ record { after = r.after; reason = x; lacks = d; runs = rw e; lighter = r.lighter }
]

read_loop_done : (fuel : ℕ) (l : Link) → read_loop fuel 0 l ≡ (ok [], l)
unfolding read_loop
read_loop_done zero l = refl
read_loop_done (suc fuel) l = refl

-- What is left to read behind the bytes of one read.
abbrev behind : {n : ℕ} {l : Link} → ReadsSome (suc n) l l.arrivals → Link
behind {l = l} r = record l { arrivals = r.after }

length-behind :
    {n : ℕ} {l : Link} (r : ReadsSome (suc n) l l.arrivals)
    → length (deliverable l.arrivals) ≡ length r.bytes + length (deliverable r.after)
length-behind r = ap length r.splits ∙ length-append r.bytes (deliverable r.after)

Fills-round :
    (fuel n : ℕ) (l : Link) (r : ReadsSome (suc n) l l.arrivals)
    → Fills (suc n - length r.bytes) (behind r) (read_loop fuel (suc n - length r.bytes) (behind r))
    → Fills (suc n) l (read_loop (suc fuel) (suc n) l)
Fills-round fuel n l r f =
    let k : suc n ≡ length r.bytes + (suc n - length r.bytes) = omega (arith, r.at_most) in
    record {
      after = f.after;
      runs =
          round_some fuel n l r
          ∙ rw f.runs (
              rw (
                r.splits,
                take-append_ge (suc n) (suc n - length r.bytes) r.bytes (deliverable r.after) k,
              ));
      remains =
          f.remains
          ∙ rw r.splits (
              sym
                (drop-append_ge (suc n) (suc n - length r.bytes) r.bytes (deliverable r.after) k));
      enough = omega (arith, length-behind r, f.enough);
      lighter = omega (arith, f.lighter, r.lighter, r.at_most);
    }

Breaks-round :
    (fuel n : ℕ) (l : Link) (r : ReadsSome (suc n) l l.arrivals)
    → Breaks
        (suc n - length r.bytes)
        (behind r)
        (read_loop fuel (suc n - length r.bytes) (behind r))
    → Breaks (suc n) l (read_loop (suc fuel) (suc n) l)
Breaks-round fuel n l r b = record {
  after = b.after;
  reason = b.reason;
  lacks = omega (arith, b.lacks, length-behind r, r.at_most);
  runs = round_some fuel n l r ∙ rw b.runs;
  lighter = omega (arith, b.lighter, r.lighter);
}

-- With enough fuel the loop fills the buffer if the link delivers as many bytes,
read_loop-Fills :
    (fuel n : ℕ) (l : Link)
    → n ≤ fuel
    → n ≤ length (deliverable l.arrivals)
    → Fills n l (read_loop fuel n l)
read_loop-Fills fuel zero l h d = record {
  after = l.arrivals;
  runs = read_loop_done fuel l;
  remains = refl;
  enough = omega arith;
  lighter = omega arith;
}
read_loop-Fills zero (suc n) l h d = absurd (omega arith)
read_loop-Fills (suc fuel) (suc n) l h d =
    let r = read_some (suc n) l l.arrivals (omega arith) (omega arith) in
    Fills-round fuel n l r (
      read_loop-Fills fuel (suc n - length r.bytes) (behind r) (omega (arith, r.some_bytes))
        (omega (arith, length-behind r)))

-- and breaks off with an error otherwise.
read_loop-Breaks :
    (fuel n : ℕ) (l : Link)
    → n ≤ fuel
    → length (deliverable l.arrivals) < n
    → Breaks n l (read_loop fuel n l)
read_loop-Breaks fuel zero l h d = absurd (omega arith)
read_loop-Breaks zero (suc n) l h d = absurd (omega arith)
read_loop-Breaks (suc fuel) (suc n) l h d = elim (zero_or_pos (length (deliverable l.arrivals))) [
  | inl e ↦ round_none fuel n l (read_none (suc n) l l.arrivals e) (omega arith)
  | inr p ↦
      let r = read_some (suc n) l l.arrivals (omega arith) p in
      Breaks-round fuel n l r (
        read_loop-Breaks fuel (suc n - length r.bytes) (behind r) (omega (arith, r.some_bytes))
          (omega (arith, length-behind r, r.at_most)))
]

-- `read_exact` fills its buffer with the next bytes of the link, however they are cut into chunks.
pub read_exact-Fills :
    (n : ℕ) (l : Link) → n ≤ length (deliverable l.arrivals) → Fills n l (read_exact n l)
unfolding read_exact
read_exact-Fills n l h = read_loop-Fills n n l (omega arith) h

pub read_exact-Breaks :
    (n : ℕ) (l : Link) → length (deliverable l.arrivals) < n → Breaks n l (read_exact n l)
unfolding read_exact
read_exact-Breaks n l h = read_loop-Breaks n n l (omega arith) h

-- `read_exact` either fills its buffer with the next bytes of the link, however they are cut into
-- chunks, and leaves what follows them, where the link delivers as many; or it fails, where the link
-- delivers fewer. It does not run out of rounds.
pub read_exact-cases : (n : ℕ) (l : Link) → Fills n l (read_exact n l) ⊎ Breaks n l (read_exact n l)
read_exact-cases n l = elim (le_or_lt n (length (deliverable l.arrivals))) [
  | inl h ↦ inl (read_exact-Fills n l h)
  | inr h ↦ inr (read_exact-Breaks n l h)
]
