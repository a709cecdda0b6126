-- ===== src/Connection/Dialogue.antt =====
-- The handshake of src/connection.cpp as a dialogue: what the host answers to the frames of a device.
use adbcpp.Base.{ℕ, ◌≡◌, ◌≢◌, List, [], ◌∷◌, ◌++◌, Bool, true, false, length, none, some, IsU32}
use adbcpp.Outcome.{Error, ok, err, error, protocol, crypto}
use adbcpp.Protocol.Commands.{cnxn, auth, auth_signature, auth_public_key}
use adbcpp.Session.{Frame}
use adbcpp.Connection.{Signer}
use adbcpp.Connection.Calls.{message_frame}

-- Where the host stands: it has sent its CNXN, a signature, or its public key; or it is done, with
-- the device's CNXN and whether the key was asked for, or with an error.
pub data Stage : Type 0 where
  greeted signed offered : Stage
  accepted : Bool → Frame → Stage
  refused : Error → Stage

-- The stages that listen for a frame, and whether the key was asked for.
pub data Listens : Stage → Bool → Type 0 where
  greeted_listens : Listens greeted false
  signed_listens : Listens signed false
  offered_listens : Listens offered true

-- The stages in which an AUTH asks for the key: behind a signature, or where nobody signs.
pub data AsksKey (signer : Signer) : Stage → Type 0 where
  signed_asks : AsksKey signer signed
  greeted_asks : signer ≡ none → AsksKey signer greeted

abbrev pub auth_frame : ℕ → List ℕ → Frame
auth_frame type payload = message_frame auth type 0 payload

abbrev pub key_frame : List ℕ → Frame
key_frame public_key = auth_frame auth_public_key (public_key ++ 0 ∷ [])

abbrev pub no_key : Error
no_key =
    error crypto
      "the device rejected the signature and no public key is available to request authorization"

abbrev pub unexpected : Error
unexpected = error protocol "unexpected response to the CNXN message"

-- A step: the stage, the frame that arrives, the frames that are sent, and the next stage.
pub data Step (public_key : List ℕ) (signer : Signer)
    : Stage → Frame → List Frame → Stage → Type 0 where
  trusted :
      {s : Stage} {asked : Bool} (f : Frame)
      → Listens s asked
      → f.header.command ≡ cnxn
      → Step public_key signer s f [] (accepted asked f)
  stranger :
      {s : Stage} {asked : Bool} (f : Frame)
      → Listens s asked
      → f.header.command ≢ cnxn
      → f.header.command ≢ auth
      → Step public_key signer s f [] (refused unexpected)
  challenge :
      (f : Frame) (sign : List ℕ → _) (signature : List ℕ)
      → f.header.command ≡ auth
      → signer ≡ some sign
      → sign f.payload ≡ ok signature
      → IsU32 (length signature)
      → Step public_key signer greeted f (auth_frame auth_signature signature ∷ []) signed
  unsigned :
      (f : Frame) (sign : List ℕ → _) (e : Error)
      → f.header.command ≡ auth
      → signer ≡ some sign
      → sign f.payload ≡ err e
      → Step public_key signer greeted f [] (refused e)
  offer :
      {s : Stage} (f : Frame)
      → AsksKey signer s
      → f.header.command ≡ auth
      → public_key ≢ []
      → IsU32 (length (public_key ++ 0 ∷ []))
      → Step public_key signer s f (key_frame public_key ∷ []) offered
  keyless :
      {s : Stage} (f : Frame)
      → AsksKey signer s
      → f.header.command ≡ auth
      → public_key ≡ []
      → Step public_key signer s f [] (refused no_key)
  unanswered :
      (f : Frame)
      → f.header.command ≡ auth
      → Step public_key signer offered f [] (refused unexpected)

-- The steps that the frames of a device lead through, what is sent on the way, the last stage, and
-- the frames behind the last one that was heard.
pub data Talks (public_key : List ℕ) (signer : Signer)
    : Stage → List Frame → List Frame → Stage → List Frame → Type 0 where
  done_accepted :
      (asked : Bool) (f : Frame) (fs : List Frame)
      → Talks public_key signer (accepted asked f) fs [] (accepted asked f) fs
  done_refused :
      (e : Error) (fs : List Frame) → Talks public_key signer (refused e) fs [] (refused e) fs
  step :
      {s t end : Stage} {f : Frame} {fs sent more left : List Frame}
      → Step public_key signer s f sent t
      → Talks public_key signer t fs more end left
      → Talks public_key signer s (f ∷ fs) (sent ++ more) end left
