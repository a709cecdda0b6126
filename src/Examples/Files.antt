-- ===== src/Examples/Files.antt =====
-- The services for files at concrete inputs.
use adbcpp.Base.{
  ℕ, ◌-◌, ◌≤◌, ◌≡◌, refl, List, [], ◌∷◌, ◌++◌, arith, false, some, inl, inr, replicate, length,
  codes, All,
}
use adbcpp.Base.Text.{contains}
use adbcpp.Outcome.{ok}
use adbcpp.Transport.{Link, chunk}
use adbcpp.Transport.Deliver.{deliverable}
use adbcpp.Protocol.ByteOrder.{write_u32_le}
use adbcpp.Protocol.Commands.{okay, wrte}
use adbcpp.Protocol.Message.{Message, compute_magic, encode}
use adbcpp.Session.{Frame}
use adbcpp.Session.Frames.{IsFrame}
use adbcpp.Connection.{Connection, fresh}
use adbcpp.Stream
use adbcpp.Stream.{Stream, Channel, unopened}
use adbcpp.Stream.Steps.{linked, chan}
use adbcpp.Stream.Next.{wire}
use adbcpp.Stream.Payloads.{payloads}
use adbcpp.Stream.Opening.{first_reply}
use adbcpp.Stream.Supply.{Takes}
use adbcpp.Stream.Supply.Filling.{read-Takes}
use adbcpp.Stream.Serving.{Serves, accepted}
use adbcpp.Sync.Wire.{sync_service}
use adbcpp.Session.Sending.{flatten}
use adbcpp.Connection.{supports_feature}
use adbcpp.Sync.Listing
use adbcpp.Sync.Stat
use adbcpp.Sync.Entries.{stat_bytes_v1}
use adbcpp.Sync.Directory.{Dent, listing}
use adbcpp.Sync.Directory.Rounds.{sent_directory, list-listing}
use adbcpp.Sync.Metadata.{found, stat-found}
use adbcpp.Examples.Frames.{link_of}

-- Frames of the device for the stream 2: the answer to OPEN, and bytes in a WRTE.
abbrev header_for : ℕ → ℕ → Message
header_for command size = record {
  command = command;
  arg0 = 5;
  arg1 = 2;
  data_length = size;
  data_check = 0;
  magic = 0xffff_ffff - command;
}

abbrev accepting : Frame
accepting = record { header = header_for okay 0; payload = [] }

abbrev carrying : List ℕ → Frame
carrying bytes = record { header = header_for wrte (length bytes); payload = bytes }

accepting-IsFrame : IsFrame accepting
unfolding compute_magic
accepting-IsFrame = record {
  words = omega arith;
  consistent = record { magic = refl; size = refl; bound = omega arith; check = inl refl };
}

carrying-IsFrame : (bytes : List ℕ) → length bytes ≤ 1000 → IsFrame (carrying bytes)
unfolding compute_magic
carrying-IsFrame bytes h = record {
  words = omega arith;
  consistent = record { magic = refl; size = refl; bound = omega arith; check = inr (inl refl) };
}

-- A device that accepts the stream and writes `p` and then `q`.
abbrev script : List ℕ → List ℕ → List Frame
script p q = accepting ∷ carrying p ∷ carrying q ∷ []

abbrev pub device : List ℕ → List ℕ → Link
device p q = link_of (chunk (wire (script p q)) ∷ [])

abbrev pub host : Connection
host = record (fresh (link_of [])) { peer_max_data = 262144 }

module _ (p q : List ℕ) where
  script_delivered : deliverable (device p q).arrivals ≡ wire (script p q) ++ []
  unfolding encode write_u32_le
  script_delivered = refl

  script_answer : first_reply 2 (script p q) ≡ some (accepting, carrying p ∷ carrying q ∷ [])
  unfolding first_reply
  script_answer = refl

  script_writes : flatten (payloads 2 (carrying p ∷ carrying q ∷ [])) ≡ p ++ (q ++ [])
  unfolding payloads
  script_writes = refl

  script_frames : length p ≤ 1000 → length q ≤ 1000 → All IsFrame (script p q)
  script_frames h k = (accepting-IsFrame, (carrying-IsFrame p h, (carrying-IsFrame q k, tt)))

  pub serving_with :
      (names : List (List ℕ))
      → length p ≤ 1000
      → length q ≤ 1000
      → Serves (record host { features = names }) (device p q) sync_service (p ++ (q ++ []))
  serving_with names h k = record {
    frames = script p q;
    rest = [];
    answer = accepting;
    behind = carrying p ∷ carrying q ∷ [];
    accepts = refl;
    nameable = omega arith;
    well = script_frames h k;
    delivers = script_delivered;
    answers = script_answer;
    agrees = refl;
    writes = script_writes;
  }

  pub serving :
      length p ≤ 1000 → length q ≤ 1000 → Serves host (device p q) sync_service (p ++ (q ++ []))
  serving h k = serving_with [] h k

-- A directory with one file, of mode 0100644.
abbrev note : Dent
note = record {
  name = codes "note";
  inode = record {
    problem = 0;
    ids = [];
    mode = 33188;
    owners = [];
    size = 5;
    atime = [];
    mtime = 9;
    ctime = [];
  };
}

abbrev note_directory : List ℕ
note_directory = sent_directory false (note ∷ []) (replicate 16 0)

list-listing_example :
    (after : Connection) × (Listing.list (codes "/d") (linked host (device note_directory []))
      ≡ (ok (listing false (note ∷ [])), after))
unfolding write_u32_le stat_bytes_v1 supports_feature contains
list-listing_example =
    list-listing host (device note_directory []) (codes "/d") (note ∷ []) (replicate 16 0)
      (serving note_directory [] (omega arith) (omega arith))
      (
        record {
          file = record { mode = omega arith; size = omega arith; mtime = omega arith };
          name = omega arith;
        },
        tt,
      )
      refl (omega arith) (omega arith)

stat-found_example :
    (after : Connection) × (Stat.stat
        (codes "/note")
        (linked host (device (codes "STAT") (stat_bytes_v1 note.inode)))
      ≡ (ok (found false note.inode), after))
unfolding supports_feature stat_bytes_v1 write_u32_le contains
stat-found_example =
    stat-found host (device (codes "STAT") (stat_bytes_v1 note.inode)) (codes "/note")
      (codes "STAT") note.inode
      (serving (codes "STAT") (stat_bytes_v1 note.inode) (omega arith) (omega arith))
      (record { mode = omega arith; size = omega arith; mtime = omega arith }) refl (omega arith)
      (omega arith)

abbrev pub reading : Stream
reading = accepted host sync_service accepting

read-Takes_example :
    Takes host reading 100 3
      (codes "ab" ++ (codes "cd" ++ []))
      (Stream.read 3 (chan host (device (codes "ab") (codes "cd")) reading))
unfolding encode write_u32_le payloads
read-Takes_example =
    read-Takes host reading 100 3 (codes "ab" ++ (codes "cd" ++ []))
      (chan host (device (codes "ab") (codes "cd")) reading)
      (record {
        link = device (codes "ab") (codes "cd");
        incoming = [];
        offset = 0;
        frames = script (codes "ab") (codes "cd");
        rest = [];
        is = refl;
        accepts = refl;
        well = script_frames (codes "ab") (codes "cd") (omega arith) (omega arith);
        delivers = script_delivered (codes "ab") (codes "cd");
        holds = refl;
        within = omega arith;
      })
      (omega arith)
