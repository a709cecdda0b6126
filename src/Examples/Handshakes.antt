-- ===== src/Examples/Handshakes.antt =====
-- Handshakes at concrete inputs.
use adbcpp.Base.{
  ℕ, ◌-◌, ◌≡◌, refl, List, [], ◌∷◌, ◌++◌, arith, false, some, inl, inr, codes, length,
}
use adbcpp.Base.Text.{find, starts_with}
use adbcpp.Outcome.{ok}
use adbcpp.Transport.{Link, chunk}
use adbcpp.Transport.Deliver.{deliverable}
use adbcpp.Protocol.ByteOrder.{write_u32_le}
use adbcpp.Protocol.Commands.{cnxn, auth, auth_signature}
use adbcpp.Protocol.Message.{compute_magic, encode}
use adbcpp.Session.{Frame}
use adbcpp.Session.Frames.{wire, IsFrame}
use adbcpp.Connection.{Build, Signer, connect}
use adbcpp.Connection.Banner.{parse_features, parse_serial}
use adbcpp.Connection.Dialogue.{
  greeted, accepted, auth_frame, step, challenge, trusted, signed_listens, done_accepted, Talks,
}
use adbcpp.Connection.Handshake.{Concludes, identity_frame, connect-Talks}
use adbcpp.Connection.Settling.{Settled, connect-settles}
use adbcpp.Connection.Identity.{banner, at_end, banner_lem}
use adbcpp.Examples.Frames.{link_of}

-- AUTH with a token, and CNXN with a banner.
abbrev token_frame : Frame
token_frame = record {
  header = record {
    command = auth;
    arg0 = 1;
    arg1 = 0;
    data_length = 5;
    data_check = 0;
    magic = 0xffff_ffff - auth;
  };
  payload = codes "token";
}

abbrev device_banner : List ℕ
device_banner =
    banner (codes "device") (codes "ABC") (codes "ro.x=y;") (codes "shell_v2" ∷ codes "cmd" ∷ []) []

abbrev welcome : Frame
welcome = record {
  header = record {
    command = cnxn;
    arg0 = 0x0100_0001;
    arg1 = 4096;
    data_length = length device_banner;
    data_check = 0;
    magic = 0xffff_ffff - cnxn;
  };
  payload = device_banner;
}

token_frame-IsFrame : IsFrame token_frame
unfolding compute_magic
token_frame-IsFrame = record {
  words = omega arith;
  consistent = record { magic = refl; size = refl; bound = omega arith; check = inr (inl refl) };
}

welcome-IsFrame : IsFrame welcome
unfolding compute_magic
welcome-IsFrame = record {
  words = omega arith;
  consistent = record { magic = refl; size = refl; bound = omega arith; check = inr (inl refl) };
}

banner_lem_example :
    (parse_serial device_banner ≡ codes "ABC")
    × (parse_features device_banner ≡ codes "shell_v2" ∷ codes "cmd" ∷ [])
unfolding find starts_with
banner_lem_example =
    banner_lem (codes "device") (codes "ABC") (codes "ro.x=y;")
      (codes "shell_v2" ∷ codes "cmd" ∷ []) []
      (record {
        system_part = omega arith;
        serial_part = omega arith;
        first_features = refl;
        names_part = omega arith;
        list_part = omega arith;
        tail_part = at_end;
      })

abbrev some_build : Build
some_build = record { compression = false; zstd = false; lz4 = false; brotli = false }

abbrev signs_all : Signer
signs_all = some (λ token. ok (codes "signature"))

abbrev trusting : List Frame
trusting = token_frame ∷ welcome ∷ token_frame ∷ []

abbrev device : Link
device = link_of (chunk (wire trusting) ∷ [])

device_delivers : deliverable device.arrivals ≡ wire trusting ++ []
unfolding encode write_u32_le
device_delivers = refl

-- The device trusts the signature.
abbrev dialogue :
    Talks
      (codes "key")
      signs_all
      greeted
      trusting
      (auth_frame auth_signature (codes "signature") ∷ [])
      (accepted false welcome)
      (token_frame ∷ [])
dialogue =
    step
      (challenge token_frame (λ token. ok (codes "signature")) (codes "signature") refl refl refl
        (omega arith))
      (step (trusted welcome signed_listens refl) (done_accepted false welcome (token_frame ∷ [])))

connect-Talks_example :
    Concludes
      (codes "key")
      signs_all
      false
      (accepted false welcome)
      (identity_frame some_build false ∷ auth_frame auth_signature (codes "signature") ∷ [])
      (wire (token_frame ∷ []) ++ [])
      device
      (connect some_build (codes "key") signs_all false device)
connect-Talks_example =
    connect-Talks some_build (codes "key") signs_all false device trusting
      (auth_frame auth_signature (codes "signature") ∷ []) (token_frame ∷ [])
      (accepted false welcome) [] dialogue refl
      (token_frame-IsFrame, (welcome-IsFrame, (token_frame-IsFrame, tt))) device_delivers

connect-settles_example :
    (d : Settled (codes "key") signs_all greeted trusting) × Concludes
      (codes "key")
      signs_all
      false
      d.end
      (identity_frame some_build false ∷ d.sent)
      (wire d.left ++ [])
      device
      (connect some_build (codes "key") signs_all false device)
connect-settles_example =
    connect-settles some_build (codes "key") signs_all false device token_frame welcome token_frame
      [] [] (omega arith) (λ token. inr (codes "signature", refl, omega arith)) refl
      (token_frame-IsFrame, (welcome-IsFrame, (token_frame-IsFrame, tt))) device_delivers
