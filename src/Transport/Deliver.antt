-- ===== src/Transport/Deliver.antt =====
-- The bytes that a link delivers, whatever the chunks that they come in, and how much is left of it.
use adbcpp.Base.{
  ℕ, zero, suc, ◌+◌, ◌≤◌, ◌<◌, ◌≡◌, ◌⊎◌, inl, inr, refl, List, [], ◌∷◌, ◌++◌, arith, length, take,
  drop, length-take, length-drop, length-append, take-append-drop, append_assoc,
}
use adbcpp.Outcome.{Error, ok, err}
use adbcpp.Transport.{Arrival, chunk, fault, Link, requeue, weight, read_arrivals}

-- What comes in before the stream ends or fails.
abbrev pub deliverable : List Arrival → List ℕ
deliverable [] = []
deliverable (fault e ∷ rest) = []
deliverable (chunk [] ∷ rest) = []
deliverable (chunk (b ∷ bs) ∷ rest) = (b ∷ bs) ++ deliverable rest

pub deliverable-requeue :
    (bs : List ℕ) (rest : List Arrival) → deliverable (requeue bs rest) ≡ bs ++ deliverable rest
deliverable-requeue [] rest = refl
deliverable-requeue (b ∷ bs) rest = refl

pub weight-requeue :
    (bs : List ℕ) (rest : List Arrival) → weight (requeue bs rest) ≤ suc (length bs + weight rest)
weight-requeue [] rest = omega arith
weight-requeue (b ∷ bs) rest = omega arith

-- How a read of at most `n` bytes ends on the arrivals `arr`: with some bytes, which are the next
-- that the link delivers, or with nothing, when it delivers nothing more.
pub record ReadsSome (n : ℕ) (l : Link) (arr : List Arrival) : Type 0 where
  pub bytes : List ℕ
  pub after : List Arrival
  pub runs : read_arrivals n l arr ≡ (ok bytes, record l { arrivals = after })
  pub some_bytes : 0 < length bytes
  pub at_most : length bytes ≤ n
  pub splits : deliverable arr ≡ bytes ++ deliverable after
  pub lighter : weight after + length bytes ≤ weight arr

pub record ReadsNone (n : ℕ) (l : Link) (arr : List Arrival) : Type 0 where
  pub after : List Arrival
  pub runs :
      (read_arrivals n l arr ≡ (ok [], record l { arrivals = after }))
      ⊎ ((e : Error) × (read_arrivals n l arr ≡ (err e, record l { arrivals = after })))
  pub lighter : weight after ≤ weight arr

pub read_some :
    (n : ℕ) (l : Link) (arr : List Arrival)
    → 0 < n
    → 0 < length (deliverable arr)
    → ReadsSome n l arr
read_some n l [] p h = absurd (omega arith)
read_some n l (fault e ∷ rest) p h = absurd (omega arith)
read_some n l (chunk [] ∷ rest) p h = absurd (omega arith)
read_some zero l (chunk (b ∷ bs) ∷ rest) p h = absurd (omega arith)
read_some (suc n) l (chunk (b ∷ bs) ∷ rest) p h = record {
  bytes = b ∷ take n bs;
  after = requeue (drop n bs) rest;
  runs = refl;
  some_bytes = omega arith;
  at_most = omega (arith, length-take n bs);
  splits = rw (deliverable-requeue (drop n bs) rest, ← append_assoc, take-append-drop n bs);
  lighter = omega (arith, length-take n bs, length-drop n bs, weight-requeue (drop n bs) rest);
}

pub read_none :
    (n : ℕ) (l : Link) (arr : List Arrival) → length (deliverable arr) ≡ 0 → ReadsNone n l arr
read_none n l [] h = record { after = []; runs = inl refl; lighter = omega arith }
read_none n l (fault e ∷ rest) h = record {
  after = rest;
  runs = inr (e, refl);
  lighter = omega arith;
}
read_none zero l (chunk [] ∷ rest) h = record {
  after = rest;
  runs = inl refl;
  lighter = omega arith;
}
read_none (suc n) l (chunk [] ∷ rest) h = record {
  after = rest;
  runs = inl refl;
  lighter = omega arith;
}
read_none n l (chunk (b ∷ bs) ∷ rest) h = absurd (omega arith)

-- What the link delivers is no more than its script holds.
pub length-deliverable-le-weight : (arr : List Arrival) → length (deliverable arr) ≤ weight arr
length-deliverable-le-weight [] = omega arith
length-deliverable-le-weight (fault e ∷ rest) = omega arith
length-deliverable-le-weight (chunk [] ∷ rest) = omega arith
length-deliverable-le-weight (chunk (b ∷ bs) ∷ rest) =
    omega (arith, length-append bs (deliverable rest), length-deliverable-le-weight rest)
