-- ===== src/Session/Frames.antt =====
-- Frames as the wire carries them, and the checks that `Session::receive` makes.
use adbcpp.Base.{ℕ, ◌≤◌, ◌≡◌, ◌⊎◌, List, [], ◌∷◌, ◌++◌, length}
use adbcpp.Protocol.Commands.{max_data}
use adbcpp.Protocol.Message.{IsMessage, compute_magic, compute_checksum, encode}
use adbcpp.Session.{Frame}

-- A header and the bytes behind it.
abbrev pub frame_bytes : Frame → List ℕ
frame_bytes f = encode f.header ++ f.payload

-- The bytes of frames in a row.
abbrev pub wire : List Frame → List ℕ
wire [] = []
wire (f ∷ fs) = frame_bytes f ++ wire fs

-- What the header claims is true of the command and of the payload. The checksum is advisory: a
-- sender may leave it at 0, and an empty payload has none.
pub record IsConsistent (f : Frame) : Type 0 where
  pub magic : f.header.magic ≡ compute_magic f.header.command
  pub size : length f.payload ≡ f.header.data_length
  pub bound : f.header.data_length ≤ max_data
  pub check :
      (f.header.data_length ≡ 0)
      ⊎ ((f.header.data_check ≡ 0) ⊎ (f.header.data_check ≡ compute_checksum f.payload))

pub record IsFrame (f : Frame) : Type 0 where
  pub words : IsMessage f.header
  pub consistent : IsConsistent f
