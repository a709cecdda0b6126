-- ===== src/Waiting/Polling.antt =====
-- `wait_readable` of src/transport.cpp: the transports are asked in turn, without waiting, until one
-- is readable or the time is over.
use adbcpp.Base.{
  ℕ, zero, suc, ◌+◌, ◌-◌, ◌≤◌, ◌<◌, ◌≡◌, ◌≢◌, refl, Bool, true, false, leb, if◌then◌else◌, List, [],
  ◌∷◌, Option, none, some, arith, Bool-cases, inl, inr, leb→not_le, leb→le,
}
use adbcpp.Outcome.{Error, Result, ok, err, stuck}
use adbcpp.Outcome.Exec.{Exec}

-- `T` is a transport, `ask` its `wait_readable` with a timeout of zero, `now` the clock and `sleep`
-- the pause of a millisecond between two passes.
module _ {D T : Type 0} (ask : T → Exec D Bool) (now : D → ℕ) (sleep : D → D) where
  -- A round of a pass behind its question; `later` is the pass over the transports that follow.
  abbrev pub poll_answer : Exec D (Option ℕ) → ℕ → Result Bool × D → Result (Option ℕ) × D
  poll_answer later index (err e, d) = (err e, d)
  poll_answer later index (stuck, d) = (stuck, d)
  poll_answer later index (ok true, d) = (ok (some index), d)
  poll_answer later index (ok false, d) = later d

  -- A pass over the transports, from the one at `index` on.
  abbrev pub poll_pass : List T → ℕ → Exec D (Option ℕ)
  poll_pass [] index d = (ok none, d)
  poll_pass (t ∷ rest) index d = poll_answer (poll_pass rest (suc index)) index (ask t d)

  -- The loop behind a pass; `again` is the loop from the next pass on.
  abbrev pub after_pass : Exec D (Option ℕ) → ℕ → Result (Option ℕ) × D → Result (Option ℕ) × D
  after_pass again deadline (err e, d) = (err e, d)
  after_pass again deadline (stuck, d) = (stuck, d)
  after_pass again deadline (ok (some index), d) = (ok (some index), d)
  after_pass again deadline (ok none, d) =
      let later = again (sleep d) in if leb deadline (now d) then (ok none, d) else later

  abbrev pub wait_loop : ℕ → List T → ℕ → Exec D (Option ℕ)
  wait_loop zero transports deadline d = (stuck, d)
  wait_loop (suc fuel) transports deadline d =
      after_pass (wait_loop fuel transports deadline) deadline (poll_pass transports 0 d)

  unfoldable pub wait_readable : List T → ℕ → Exec D (Option ℕ)
  wait_readable transports timeout d = wait_loop (suc timeout) transports (now d + timeout) d

  -- What the last pass met: transports that were not readable, and then the end, a readable one, or
  -- an error.
  pub data Pass : List T → ℕ → D → Result (Option ℕ) × D → Type 0 where
    none_left : (index : ℕ) (d : D) → Pass [] index d (ok none, d)
    readable :
        (t : T) (rest : List T) (index : ℕ) (d after : D)
        → ask t d ≡ (ok true, after)
        → Pass (t ∷ rest) index d (ok (some index), after)
    failed :
        (t : T) (rest : List T) (index : ℕ) (d : D) (e : Error) (after : D)
        → ask t d ≡ (err e, after)
        → Pass (t ∷ rest) index d (err e, after)
    next :
        (t : T) (rest : List T) (index : ℕ) (d after : D) (r : Result (Option ℕ) × D)
        → ask t d ≡ (ok false, after)
        → Pass rest (suc index) after r
        → Pass (t ∷ rest) index d r

  -- The clock does not go back while a transport is asked, which ends, and moves on over a pause.
  pub record IsClock : Type 0 where
    pub asks : (t : T) (d : D) → now d ≤ now (ask t d).1
    pub answers : (t : T) (d : D) → (ask t d).0 ≢ stuck
    pub sleeps : (d : D) → now d < now (sleep d)

  -- How a wait ends: the passes before the last found nothing before the deadline.
  pub data Waits (transports : List T) (deadline : ℕ) : D → Result (Option ℕ) × D → Type 0 where
    found :
        (d : D) (index : ℕ) (after : D)
        → Pass transports 0 d (ok (some index), after)
        → Waits transports deadline d (ok (some index), after)
    fault :
        (d : D) (e : Error) (after : D)
        → Pass transports 0 d (err e, after)
        → Waits transports deadline d (err e, after)
    expired :
        (d after : D)
        → Pass transports 0 d (ok none, after)
        → deadline ≤ now after
        → Waits transports deadline d (ok none, after)
    again :
        (d after : D) (r : Result (Option ℕ) × D)
        → Pass transports 0 d (ok none, after)
        → now after < deadline
        → Waits transports deadline (sleep after) r
        → Waits transports deadline d r

  never_stuck :
      {transports : List T} {index : ℕ} {d : D} {r : Result (Option ℕ) × D}
      → Pass transports index d r
      → r.0 ≢ stuck
  never_stuck (none_left _ _) h = cc
  never_stuck (readable _ _ _ _ _ _) h = cc
  never_stuck (failed _ _ _ _ _ _ _) h = cc
  never_stuck (next _ _ _ _ _ _ _ rest) h = never_stuck rest h

  abbrev Passed : List T → ℕ → D → Type 0
  Passed rest index d =
      Pass rest index d (poll_pass rest index d) × (now d ≤ now (poll_pass rest index d).1)

  poll_answer-Pass :
      (later : Exec D (Option ℕ)) (t : T) (rest : List T) (index : ℕ) (d : D) (r : Result Bool × D)
      → ask t d ≡ r
      → r.0 ≢ stuck
      → now d ≤ now r.1
      → ((next_d : D)
          → Pass rest (suc index) next_d (later next_d) × (now next_d ≤ now (later next_d).1))
      → Pass (t ∷ rest) index d (poll_answer later index r)
        × (now d ≤ now (poll_answer later index r).1)
  poll_answer-Pass later t rest index d (stuck, after) e ends on more = absurd (ends refl)
  poll_answer-Pass later t rest index d (err f, after) e ends on more =
      (failed t rest index d f after e, on)
  poll_answer-Pass later t rest index d (ok true, after) e ends on more =
      (readable t rest index d after e, on)
  poll_answer-Pass later t rest index d (ok false, after) e ends on more =
      let (pass, further) = more after in (next t rest index d after _ e pass, omega arith)

  poll_pass-Pass : IsClock → (rest : List T) (index : ℕ) (d : D) → Passed rest index d
  poll_pass-Pass clock [] index d = (none_left index d, omega arith)
  poll_pass-Pass clock (t ∷ rest) index d =
      poll_answer-Pass (poll_pass rest (suc index)) t rest index d (ask t d) refl
        (clock.answers t d) (clock.asks t d) (poll_pass-Pass clock rest (suc index))

  after_pass-Waits :
      (again_loop : Exec D (Option ℕ)) (transports : List T) (fuel deadline : ℕ) (d : D)
      (r : Result (Option ℕ) × D)
      → IsClock
      → Pass transports 0 d r
      → now d ≤ now r.1
      → deadline - now d < suc fuel
      → ((later : D)
          → deadline - now later < fuel
          → Waits transports deadline later (again_loop later))
      → Waits transports deadline d (after_pass again_loop deadline r)
  after_pass-Waits again_loop transports fuel deadline d (err e, after) clock pass on h more =
      fault d e after pass
  after_pass-Waits again_loop transports fuel deadline d (stuck, after) clock pass on h more =
      absurd (never_stuck pass refl)
  after_pass-Waits again_loop transports fuel deadline d (ok (some index), after) clock pass on h
        more =
      found d index after pass
  after_pass-Waits again_loop transports fuel deadline d (ok none, after) clock pass on h more =
      elim (Bool-cases (leb deadline (now after))) [
        | inl late ↦ rw late (expired d after pass (leb→le deadline (now after) late))
        | inr early ↦
            let before = leb→not_le deadline (now after) early in
            let paused = clock.sleeps after in
            rw early (again d after _ pass before (more (sleep after) (omega arith)))
      ]

  wait_loop-Waits :
      IsClock
      → (fuel : ℕ) (transports : List T) (deadline : ℕ) (d : D) → deadline - now d < fuel
      → Waits transports deadline d (wait_loop fuel transports deadline d)
  wait_loop-Waits clock zero transports deadline d h = absurd (omega arith)
  wait_loop-Waits clock (suc fuel) transports deadline d h =
      let (pass, on) = poll_pass-Pass clock transports 0 d in
      after_pass-Waits (wait_loop fuel transports deadline) transports fuel deadline d _ clock pass
        on h (wait_loop-Waits clock fuel transports deadline)

  -- Where the clock does not go back and moves on over a pause, a wait ends: with the first transport that is
  -- readable in its last pass, with the error of a transport, or with none once the time is over.
  pub wait_readable-Waits :
      IsClock
      → (transports : List T) (timeout : ℕ) (d : D)
      → Waits transports (now d + timeout) d (wait_readable transports timeout d)
  unfolding wait_readable
  wait_readable-Waits clock transports timeout d =
      wait_loop-Waits clock (suc timeout) transports (now d + timeout) d (omega arith)
