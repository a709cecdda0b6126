-- ===== src/App/Reason.antt =====
-- What `failure_reason` of src/app.cpp finds in the output of the package manager.
use adbcpp.Base.{
  ℕ, ◌+◌, ◌-◌, ◌≡◌, refl, ap, ◌∙◌, List, [], ◌∷◌, ◌++◌, arith, none, some, length, take, drop,
  take-append, append-nil, drop-append_ge, codes,
}
use adbcpp.Base.Text.{find, find_from}
use adbcpp.Base.Search.{
  Lacks, find-lacking, find-none, IsBorderless, IsBorderless-Lacks, find-behind,
}
use adbcpp.Shell.{CommandResult}
use adbcpp.App.{failure_reason}

abbrev pub failure_key : List ℕ
failure_key = codes "Failure ["

failure_key-IsBorderless : IsBorderless failure_key
failure_key-IsBorderless = IsBorderless-Lacks b'F' (codes "ailure [") (omega arith)

-- The reason ends at a `]`, or with the output.
pub data EndsReason : List ℕ → Type 0 where
  at_end : EndsReason []
  at_bracket : (more : List ℕ) → EndsReason (b']' ∷ more)

-- The text behind the position `start`, up to a `]`.
abbrev to_bracket : ℕ → List ℕ → List ℕ
to_bracket start text = elim (find_from (codes "]") text start) [
  | none ↦ drop start text
  | some stop ↦ take (stop - start) (drop start text)
]

reason_found :
    (r : CommandResult) (start : ℕ)
    → find failure_key r.output ≡ some start
    → failure_reason r ≡ to_bracket (start + 9) r.output
unfolding failure_reason
reason_found r start e = rw (failure_reason, e)

reason_stops :
    (start : ℕ) (text reason tail : List ℕ)
    → drop start text ≡ reason ++ tail
    → Lacks b']' reason
    → EndsReason tail
    → to_bracket start text ≡ reason
unfolding find_from
reason_stops start text reason tail e h at_end =
    let k : drop start text ≡ reason = e ∙ append-nil reason in
    rw (to_bracket, find_from, k, find-none b']' [] reason h) k
reason_stops start text reason tail e h (at_bracket more) =
    let size : start + length reason - start ≡ length reason = omega arith in
    rw (to_bracket, find_from, e, find-lacking b']' [] reason more h, size)
      (ap (take (length reason)) e ∙ take-append (length reason) reason (b']' ∷ more) refl)

-- An output that says `Failure [reason]`, or ends with the reason, and says it nowhere before: the
-- reason is what is found.
pub failure_reason-reported :
    (r : CommandResult) (front reason tail : List ℕ)
    → r.output ≡ front ++ (failure_key ++ (reason ++ tail))
    → find failure_key front ≡ none
    → Lacks b']' reason
    → EndsReason tail
    → failure_reason r ≡ reason
failure_reason-reported r front reason tail e h free t =
    let text : List ℕ = reason ++ tail in
    reason_found r (length front) (
      ap (find failure_key) e
      ∙ find-behind failure_key front text failure_key-IsBorderless (omega arith) h)
    ∙ reason_stops (length front + 9) r.output reason tail
        (ap (drop (length front + 9)) e
          ∙ drop-append_ge (length front + 9) 9 front (failure_key ++ text) refl)
        free t
