-- ===== src/Outcome.antt =====
-- include/adbcpp/error.hpp: `Error`, `Result` and `Status`, and the operations that fail or change
-- an object. `Status` is a result of the unit type.
pub mod Exec
use adbcpp.Base.{ℕ, String, List, []}

pub data ErrorCode : Type 0 where
  invalid_argument transport protocol device crypto io : ErrorCode

-- The text of an error is the literal of the source followed by `detail`, the bytes that it appends
-- to the literal (none for most errors).
pub record Error : Type 0 where
  pub code : ErrorCode
  pub message : String
  pub detail : List ℕ

abbrev pub error : ErrorCode → String → Error
error code message = record { code = code; message = message; detail = [] }

-- `stuck` is no outcome of the program: it marks a loop of the model that used up its fuel.
pub data Result {ℓ} (A : Type ℓ) : Type ℓ where
  ok : A → Result A
  err : Error → Result A
  stuck : Result A

abbrev pub Status : Type 0
Status = Result (Unit {0})
