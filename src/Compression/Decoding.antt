-- ===== src/Compression/Decoding.antt =====
-- What the decoders of src/compression.cpp return of what their library can produce.
use adbcpp.Base.{ℕ, ◌<◌, ◌≡◌, ◌⊎◌, false, ◌&&◌, ◌==◌, List, [], ◌++◌, Option, some, drop, is_empty}
use adbcpp.Outcome.{Error, Result, ok, err}
use adbcpp.Compression.{max_chunk_size, Step, failed, stepped}

module _ {Z : Type 0} (step : ℕ → List ℕ → Z → Step × Z) (out : Z → List ℕ → List ℕ)
    (room : Z → List ℕ → ℕ) where
  -- `out z input` is all that the decoder can still produce, from what it holds and from the input:
  -- a step takes its bytes off the front. `room` bounds the steps that it can still make.
  abbrev pub Explains : List ℕ → Z → Step × Z → Type 0
  Explains input z (failed name, after) = Unit
  Explains input z (stepped n bytes, after) =
      (out z input ≡ bytes ++ out after (drop n input))
      × (((n == 0 && is_empty bytes) ≡ false) → room after (drop n input) < room z input)

  abbrev pub IsDecoder : Type 0
  IsDecoder = (input : List ℕ) (z : Z) → Explains input z (step max_chunk_size input z)

  -- What ends a call without an error: no input is left, or a step on what is left made no progress.
  abbrev pub IsOver : List ℕ → Z → Type 0
  IsOver left after =
      (left ≡ []) ⊎ ((before : Z) × (step max_chunk_size left before ≡ (stepped 0 [], after)))

  -- What a decoder returns: bytes and a state, which together are what there was to produce, where no
  -- input is left that a step makes progress on; or an error of the library.
  pub data Decoded (all : List ℕ) : Result (List ℕ) × Z → Type 0 where
    decoded :
        (bytes left : List ℕ) (after : Z)
        → all ≡ bytes ++ out after left
        → IsOver left after
        → Decoded all (ok bytes, after)
    refused : (e : Error) (after : Z) → Decoded all (err e, after)

  pub data Returns (all : List ℕ) : Result (List ℕ) × Option Z → Type 0 where
    returned : (r : Result (List ℕ) × Z) → Decoded all r → Returns all (r.0, some r.1)
