-- ===== src/Transport.antt =====
-- include/adbcpp/transport.hpp: a byte channel to a device, by the contract of the class `Transport`.
-- What the device and the link do is a script: `arrivals` is what the calls of `read` will meet, in
-- order, and `verdicts` is what the calls of `write` will meet. Every finite run of a channel that
-- keeps to the contract is a run of some script. With one chunk and no verdict this is
-- include/adbcpp/testing/mock_transport.hpp.
pub mod Deliver
use adbcpp.Base.{
  ℕ, suc, ◌+◌, length, List, [], ◌∷◌, ◌++◌, Option, none, some, Bool, true, take, drop,
}
use adbcpp.Outcome.{Error, Result, Status, ok, err}
use adbcpp.Outcome.Exec.{Exec}

-- Bytes that come in together, or a failure of the link. A chunk of no bytes is an end of stream.
pub data Arrival : Type 0 where
  chunk : List ℕ → Arrival
  fault : Error → Arrival

pub record Link : Type 0 where
  pub arrivals : List Arrival
  pub verdicts : List (Option Error)
  pub written : List (List ℕ)
  pub closed : Bool
  pub serial : List ℕ

-- The number of reads that a script can answer at most, one byte at a time.
abbrev pub weight : List Arrival → ℕ
weight [] = 0
weight (fault e ∷ rest) = suc (weight rest)
weight (chunk bs ∷ rest) = suc (length bs + weight rest)

-- What a chunk keeps for the next read.
abbrev pub requeue : List ℕ → List Arrival → List Arrival
requeue [] rest = rest
requeue (b ∷ bs) rest = chunk (b ∷ bs) ∷ rest

abbrev pub read_arrivals : ℕ → Link → List Arrival → (Result (List ℕ) × Link)
read_arrivals n l [] = (ok [], record l { arrivals = [] })
read_arrivals n l (fault e ∷ rest) = (err e, record l { arrivals = rest })
read_arrivals n l (chunk bs ∷ rest) =
    (ok (take n bs), record l { arrivals = requeue (drop n bs) rest })

-- At most `n` bytes; none at the end of the stream.
unfoldable pub read : ℕ → Exec Link (List ℕ)
read n l = read_arrivals n l l.arrivals

abbrev pub write_verdicts : List ℕ → Link → List (Option Error) → (Status × Link)
write_verdicts bytes l [] = (ok tt, record l { written = l.written ++ bytes ∷ [] })
write_verdicts bytes l (none ∷ rest) =
    (ok tt, record l { written = l.written ++ bytes ∷ []; verdicts = rest })
write_verdicts bytes l (some e ∷ rest) = (err e, record l { verdicts = rest })

-- The whole of `bytes`, or a failure.
unfoldable pub write : List ℕ → Exec Link Unit
write bytes l = write_verdicts bytes l l.verdicts

unfoldable pub close : Link → Link
close l = record l { closed = true }
