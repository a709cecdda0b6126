-- ===== src/Usb/Bulk.antt =====
-- `bulk_transfer` of src/usb/usb_transport.cpp: a transfer that times out having moved nothing is
-- repeated while the budget lasts.
use adbcpp.Base.{
  ℕ, zero, suc, ◌+◌, ◌-◌, ◌≤◌, ◌<◌, ◌≡◌, Bool, true, false, not, ◌&&◌, ◌==◌, ltb, leb,
  if◌then◌else◌, arith, Bool-cases, ◌⊎◌, ◌≢◌, inl, inr, leb→le, leb→not_le,
}
use adbcpp.Outcome.{Result, ok, err, stuck}
use adbcpp.Outcome.Exec.{Exec}

-- What a transfer answers: the code that libusb returns, by its absolute value, and what it moved.
pub record Answer (A : Type 0) : Type 0 where
  pub code : ℕ
  pub moved : A

-- LIBUSB_ERROR_TIMEOUT, which is -7.
abbrev pub timeout : ℕ
timeout = 7

module _ {D A : Type 0} where
  -- What an answer of the loop is an answer of: some attempt.
  abbrev pub Answers : (Answer A → Type 0) → Result (Answer A) × D → Type 0
  Answers P (ok a, d) = P a
  Answers P (err e, d) = Unit
  Answers P (stuck, d) = Unit

module _ {D A : Type 0} (attempt : D → Answer A × D) (size : A → ℕ) (now : D → ℕ) where
  -- A timeout that moved nothing, the negation of the test in the source.
  abbrev pub silent : Answer A → Bool
  silent a = a.code == timeout && not (ltb 0 (size a.moved))

  -- The loop: `fuel` counts the attempts.
  abbrev pub bulk_loop : ℕ → ℕ → Exec D (Answer A)
  bulk_loop zero deadline d = (stuck, d)
  bulk_loop (suc fuel) deadline d =
      let answer = attempt d in
      let again = bulk_loop fuel deadline answer.1 in
      if not (silent answer.0)
      then (ok answer.0, answer.1)
      else if leb deadline (now answer.1)
      then (ok answer.0, answer.1)
      else again

  unfoldable pub bulk_transfer : ℕ → Exec D (Answer A)
  bulk_transfer budget d = bulk_loop (suc budget) (now d + budget) d

  -- A timeout, LIBUSB_ERROR_TIMEOUT, of a transfer that moved nothing; and any other answer.
  abbrev pub IsSilent : Answer A → Type 0
  IsSilent a = (a.code ≡ 7) × (size a.moved ≡ 0)

  abbrev pub IsHeard : Answer A → Type 0
  IsHeard a = (a.code ≢ 7) ⊎ (0 < size a.moved)

  silent-IsSilent : (a : Answer A) → silent a ≡ true → IsSilent a
  silent-IsSilent a h = grind arith

  silent-IsHeard : (a : Answer A) → silent a ≡ false → IsHeard a
  silent-IsHeard a h = grind arith

  -- How a transfer ends: with the first attempt that is answered, or with the first that runs past
  -- the deadline.
  pub data Ends (deadline : ℕ) : D → Answer A → D → Type 0 where
    answered : (d : D) → IsHeard (attempt d).0 → Ends deadline d (attempt d).0 (attempt d).1
    expired :
        (d : D)
        → IsSilent (attempt d).0
        → deadline ≤ now (attempt d).1
        → Ends deadline d (attempt d).0 (attempt d).1
    again :
        (d : D) (a : Answer A) (after : D)
        → IsSilent (attempt d).0
        → now (attempt d).1 < deadline
        → Ends deadline (attempt d).1 a after
        → Ends deadline d a after

  abbrev pub Settles : ℕ → D → Result (Answer A) × D → Type 0
  Settles deadline d r =
      (a : Answer A) × (after : D) × (r ≡ (ok a, after)) × Ends deadline d a after

  -- Waiting takes time: the clock has moved on behind an attempt that timed out.
  abbrev pub Passes : Type 0
  Passes = (d : D) → IsSilent (attempt d).0 → now d < now (attempt d).1

  bulk_loop-Settles :
      Passes
      → (fuel deadline : ℕ) (d : D) → deadline - now d < fuel
      → Settles deadline d (bulk_loop fuel deadline d)
  bulk_loop-Settles passes zero deadline d h = absurd (omega arith)
  bulk_loop-Settles passes (suc fuel) deadline d h = elim (Bool-cases (silent (attempt d).0)) [
    | inr heard ↦
        ((attempt d).0, (attempt d).1, rw heard, answered d (silent-IsHeard (attempt d).0 heard))
    | inl quiet ↦ elim (Bool-cases (leb deadline (now (attempt d).1))) [
      | inl late ↦ (
        (attempt d).0,
        (attempt d).1,
        rw (quiet, late),
        expired d (silent-IsSilent (attempt d).0 quiet) (leb→le _ _ late),
      )
      | inr early ↦
          let still = silent-IsSilent (attempt d).0 quiet in
          let later = passes d still in
          let before = leb→not_le _ _ early in
          let (a, after, runs, ends) =
            bulk_loop-Settles passes fuel deadline (attempt d).1 (omega arith) in
          (a, after, rw (quiet, early) runs, again d a after still before ends)
    ]
  ]

  -- Where a timeout takes time, a transfer returns: its answer is that of the first attempt that moved
  -- bytes or did not time out, or of the first that ends at the deadline or behind it, which is the
  -- budget from the start; every attempt before it timed out having moved nothing, and ended before
  -- the deadline, so no attempt but the first begins at the deadline or behind it.
  pub bulk_transfer-Settles :
      Passes → (budget : ℕ) (d : D) → Settles (now d + budget) d (bulk_transfer budget d)
  unfolding bulk_transfer
  bulk_transfer-Settles passes budget d =
      bulk_loop-Settles passes (suc budget) (now d + budget) d (omega arith)

  bulk_loop-Answers :
      (P : Answer A → Type 0)
      → ((d : D) → P (attempt d).0)
      → (fuel deadline : ℕ) (d : D) → Answers P (bulk_loop fuel deadline d)
  bulk_loop-Answers P each zero deadline d = tt
  bulk_loop-Answers P each (suc fuel) deadline d = elim (Bool-cases (silent (attempt d).0)) [
    | inr heard ↦ rw heard (each d)
    | inl quiet ↦ elim (Bool-cases (leb deadline (now (attempt d).1))) [
      | inl late ↦ rw (quiet, late) (each d)
      | inr early ↦ rw (quiet, early) (bulk_loop-Answers P each fuel deadline (attempt d).1)
    ]
  ]

  pub bulk_transfer-Answers :
      (P : Answer A → Type 0)
      → ((d : D) → P (attempt d).0)
      → (budget : ℕ) (d : D) → Answers P (bulk_transfer budget d)
  unfolding bulk_transfer
  bulk_transfer-Answers P each budget d = bulk_loop-Answers P each (suc budget) (now d + budget) d
