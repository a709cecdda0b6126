-- ===== src/Stream/Payloads.antt =====
-- What the device writes to a stream, among the frames that a link delivers.
use adbcpp.Base.{
  ℕ, ◌≡◌, refl, sym, ap, ◌∙◌, List, [], ◌∷◌, ◌==◌, if◌then◌else◌, Option, none, some, Bool-cases,
  Option-cases, inl, inr,
}
use mathlib.Core.Option.{some-injective}
use adbcpp.Session.{Frame}
use adbcpp.Stream.Next.{Event, written, ended, unexpected, event, next_event, next-other, next-mine}

-- The payloads of the stream `id` up to its first event that is no WRTE.
abbrev pub on_payload : Option Event → List (List ℕ) → List (List ℕ)
on_payload none later = later
on_payload (some (written p)) later = p ∷ later
on_payload (some ended) later = []
on_payload (some unexpected) later = []

unfoldable pub payloads : ℕ → List Frame → List (List ℕ)
payloads id [] = []
payloads id (f ∷ fs) =
    if f.header.arg1 == id then on_payload (event f) (payloads id fs) else payloads id fs

pub payloads-next :
    (id : ℕ) (fs : List Frame) (e : Event) (gs : List Frame)
    → next_event id fs ≡ some (e, gs)
    → payloads id fs ≡ on_payload (some e) (payloads id gs)
unfolding payloads
payloads-next id [] e gs n = unfold next_event in cc
payloads-next id (f ∷ fs) e gs n = elim (Bool-cases (f.header.arg1 == id)) [
  | inr m ↦ rw m (payloads-next id fs e gs (sym (next-other id f fs m) ∙ n))
  | inl m ↦ elim (Option-cases (event f)) [
    | inl q ↦ rw (m, q) (payloads-next id fs e gs (rw q at (sym (next-mine id f fs m) ∙ n)))
    | inr (x, q) ↦
        rw (m, q)
          (ap (λ y. on_payload (some y.0) (payloads id y.1))
            (some-injective (x, fs) (e, gs) (rw q at (sym (next-mine id f fs m) ∙ n))))
  ]
]

pub payloads-none : (id : ℕ) (fs : List Frame) → next_event id fs ≡ none → payloads id fs ≡ []
unfolding payloads
payloads-none id [] n = refl
payloads-none id (f ∷ fs) n = elim (Bool-cases (f.header.arg1 == id)) [
  | inr m ↦ rw m (payloads-none id fs (sym (next-other id f fs m) ∙ n))
  | inl m ↦ elim (Option-cases (event f)) [
    | inl q ↦ rw (m, q) (payloads-none id fs (rw q at (sym (next-mine id f fs m) ∙ n)))
    | inr (x, q) ↦ absurd (cc (rw q at (sym (next-mine id f fs m) ∙ n)))
  ]
]
