-- ===== src/Waiting/Retry.antt =====
-- `connect_with_retry` of include/adbcpp/connection.hpp: the transport is opened and connected again
-- behind a growing pause.
use adbcpp.Base.{
  ℕ, zero, suc, ◌+◌, ◌*◌, ◌^◌, ◌≤◌, ◌≡◌, ◌≢◌, refl, sym, ap, ◌∙◌, min, List, [], ◌∷◌, ◌++◌,
  append_assoc, append-nil, Option, none, some, arith,
}
use adbcpp.Outcome.{Error, Result, ok, err, stuck, error, transport}
use adbcpp.Outcome.Exec.{Exec}

-- The pause before an attempt, but the first.
abbrev pub delay : ℕ → ℕ → ℕ
delay backoff zero = 0
delay backoff (suc attempt) = backoff * 2 ^ min attempt 20

-- The pauses before `left` attempts from the one numbered `attempt` on: none before the first, the
-- backoff before the second, and twice the pause before each that follows, up to 2^20 backoffs.
abbrev pub pauses : ℕ → ℕ → ℕ → List ℕ
pauses backoff zero attempt = []
pauses backoff (suc left) zero = pauses backoff left 1
pauses backoff (suc left) (suc n) = backoff * 2 ^ min n 20 ∷ pauses backoff left (suc (suc n))

-- `T` is a transport, which keeps its state in `D`, and `C` a connection that borrows it. The second
-- part of the state of the loop is the caller's optional transport.
module _ {D T C : Type 0} (open_transport : Exec D T) (connect : T → Exec D C)
    (sleep_for : ℕ → D → D) where
  abbrev pub before_attempt : ℕ → ℕ → D → D
  before_attempt backoff zero d = d
  before_attempt backoff (suc attempt) d = sleep_for (delay backoff (suc attempt)) d

  abbrev pub Retried : Type 0
  Retried = Result C × Option T × D

  -- An attempt behind its connect; `again` makes those that follow.
  abbrev pub connect_answer : (Error → Option T → D → Retried) → T → Result C × D → Retried
  connect_answer again t (ok c, d) = (ok c, some t, d)
  connect_answer again t (err e, d) = again e none d
  connect_answer again t (stuck, d) = (stuck, some t, d)

  -- An attempt behind its open, which leaves the caller's transport as it is when it fails.
  abbrev pub open_answer : (Error → Option T → D → Retried) → Option T → Result T × D → Retried
  open_answer again held (ok t, d) = connect_answer again t (connect t d)
  open_answer again held (err e, d) = again e held d
  open_answer again held (stuck, d) = (stuck, held, d)

  -- The attempts that are left, from the one numbered `attempt` on.
  abbrev pub retry_loop : ℕ → ℕ → ℕ → Error → Option T → D → Retried
  retry_loop zero attempt backoff last held d = (err last, held, d)
  retry_loop (suc left) attempt backoff last held d =
      open_answer (retry_loop left (suc attempt) backoff) held
        (open_transport (before_attempt backoff attempt d))

  unfoldable pub connect_with_retry : ℕ → ℕ → Option T → D → Retried
  connect_with_retry attempts backoff held d =
      retry_loop attempts 0 backoff (error transport "the transport was not opened") held d

  -- `slept` is the list of the pauses and `opened` the number of the calls that open a transport.
  pub record Counts (slept : D → List ℕ) (opened : D → ℕ) : Type 0 where
    pub sleeps : (ms : ℕ) (d : D) → slept (sleep_for ms d) ≡ slept d ++ ms ∷ []
    pub sleep_keeps : (ms : ℕ) (d : D) → opened (sleep_for ms d) ≡ opened d
    pub opens : (d : D) → opened (open_transport d).1 ≡ suc (opened d)
    pub open_keeps : (d : D) → slept (open_transport d).1 ≡ slept d
    pub connects : (t : T) (d : D) → slept (connect t d).1 ≡ slept d
    pub connect_keeps : (t : T) (d : D) → opened (connect t d).1 ≡ opened d

  module _ (slept : D → List ℕ) (opened : D → ℕ) where
    -- Some attempts were made, with the pauses before them; an error means that all were made.
    pub record Paces (backoff left attempt : ℕ) (before : D) (r : Retried) : Type 0 where
      pub made : ℕ
      pub at_most : made ≤ left
      pub opens : opened r.2 ≡ opened before + made
      pub sleeps : slept r.2 ≡ slept before ++ pauses backoff made attempt
      pub exhausts : (e : Error) → r.0 ≡ err e → made ≡ left

    -- A state behind the pause and the open of the attempt numbered `attempt`.
    record Opened (backoff attempt : ℕ) (before after : D) : Type 0 where
      opens : opened after ≡ suc (opened before)
      sleeps : slept after ≡ slept before ++ pauses backoff 1 attempt

    module _ (counts : Counts slept opened) where
      pauses-suc :
          (backoff made attempt : ℕ)
          → pauses backoff (suc made) attempt
            ≡ pauses backoff 1 attempt ++ pauses backoff made (suc attempt)
      pauses-suc backoff made zero = refl
      pauses-suc backoff made (suc n) = refl

      -- The attempt is the last, or others follow it.
      ends_with :
          (backoff left attempt : ℕ) (before : D) (r : Retried)
          → Opened backoff attempt before r.2
          → ((e : Error) → r.0 ≢ err e)
          → Paces backoff (suc left) attempt before r
      ends_with backoff left attempt before r o h = record {
        made = 1;
        at_most = omega arith;
        opens = omega (arith, o.opens);
        sleeps = o.sleeps;
        exhausts = λ e k. absurd (h e k);
      }

      goes_on :
          (backoff left attempt : ℕ) (before after : D) (r : Retried)
          → Opened backoff attempt before after
          → Paces backoff left (suc attempt) after r
          → Paces backoff (suc left) attempt before r
      goes_on backoff left attempt before after r o p = record {
        made = suc p.made;
        at_most = omega (arith, p.at_most);
        opens = omega (arith, o.opens, p.opens);
        sleeps =
            p.sleeps
            ∙ ap (λ t. t ++ pauses backoff p.made (suc attempt)) o.sleeps
            ∙ append_assoc (slept before) (pauses backoff 1 attempt)
                (pauses backoff p.made (suc attempt))
            ∙ ap (λ t. slept before ++ t) (sym (pauses-suc backoff p.made attempt));
        exhausts = λ e k. ap suc (p.exhausts e k);
      }

      connect_answer-Paces :
          (backoff left attempt : ℕ) (before : D) (again : Error → Option T → D → Retried) (t : T)
          → (r : Result C × D) → Opened backoff attempt before r.1
          → ((e : Error) (held : Option T) (d : D)
              → Paces backoff left (suc attempt) d (again e held d))
          → Paces backoff (suc left) attempt before (connect_answer again t r)
      connect_answer-Paces backoff left attempt before again t (ok c, d) o h =
          ends_with backoff left attempt before (ok c, some t, d) o (λ e k. cc)
      connect_answer-Paces backoff left attempt before again t (err e, d) o h =
          goes_on backoff left attempt before d (again e none d) o (h e none d)
      connect_answer-Paces backoff left attempt before again t (stuck, d) o h =
          ends_with backoff left attempt before (stuck, some t, d) o (λ e k. cc)

      open_answer-Paces :
          (backoff left attempt : ℕ) (before : D) (again : Error → Option T → D → Retried)
          → (held : Option T) (r : Result T × D) → Opened backoff attempt before r.1
          → ((e : Error) (held : Option T) (d : D)
              → Paces backoff left (suc attempt) d (again e held d))
          → Paces backoff (suc left) attempt before (open_answer again held r)
      open_answer-Paces backoff left attempt before again held (ok t, d) o h =
          connect_answer-Paces backoff left attempt before again t (connect t d)
            (record {
              opens = counts.connect_keeps t d ∙ o.opens;
              sleeps = counts.connects t d ∙ o.sleeps;
            })
            h
      open_answer-Paces backoff left attempt before again held (err e, d) o h =
          goes_on backoff left attempt before d (again e held d) o (h e held d)
      open_answer-Paces backoff left attempt before again held (stuck, d) o h =
          ends_with backoff left attempt before (stuck, held, d) o (λ e k. cc)

      opens_behind :
          (backoff attempt : ℕ) (d : D)
          → Opened backoff attempt d (open_transport (before_attempt backoff attempt d)).1
      opens_behind backoff zero d = record {
        opens = counts.opens d;
        sleeps = counts.open_keeps d ∙ sym (append-nil (slept d));
      }
      opens_behind backoff (suc n) d =
          let ms = delay backoff (suc n) in
          record {
            opens = counts.opens (sleep_for ms d) ∙ ap suc (counts.sleep_keeps ms d);
            sleeps = counts.open_keeps (sleep_for ms d) ∙ counts.sleeps ms d;
          }

      retry_loop-Paces :
          (left attempt backoff : ℕ) (last : Error) (held : Option T) (d : D)
          → Paces backoff left attempt d (retry_loop left attempt backoff last held d)
      retry_loop-Paces zero attempt backoff last held d = record {
        made = 0;
        at_most = omega arith;
        opens = omega arith;
        sleeps = sym (append-nil (slept d));
        exhausts = λ e k. refl;
      }
      retry_loop-Paces (suc left) attempt backoff last held d =
          open_answer-Paces backoff left attempt d (retry_loop left (suc attempt) backoff) held
            (open_transport (before_attempt backoff attempt d)) (opens_behind backoff attempt d)
            (retry_loop-Paces left (suc attempt) backoff)

      -- Where only pauses are put on the list of pauses and only opens on the count of opens: some
      -- attempts are made, each of which opens a transport once, at most as many as asked for, and all
      -- of them where the result is an error. No pause is made before the first and one before each
      -- other: the backoff before the second, twice the last pause before each that follows, and
      -- 2^20 times the backoff from there on.
      pub connect_with_retry-Paces :
          (attempts backoff : ℕ) (held : Option T) (d : D)
          → Paces backoff attempts 0 d (connect_with_retry attempts backoff held d)
      unfolding connect_with_retry
      connect_with_retry-Paces attempts backoff held d =
          retry_loop-Paces attempts 0 backoff (error transport "the transport was not opened") held
            d
