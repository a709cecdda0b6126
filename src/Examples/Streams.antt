-- ===== src/Examples/Streams.antt =====
-- Streams at concrete inputs.
use adbcpp.Base.{◌-◌, ◌≡◌, refl, List, [], ◌∷◌, ◌++◌, arith, false, some, inl, codes}
use adbcpp.Transport.{chunk, Link}
use adbcpp.Transport.Deliver.{deliverable}
use adbcpp.Protocol.ByteOrder.{write_u32_le}
use adbcpp.Protocol.Commands.{okay, clse}
use adbcpp.Protocol.Message.{compute_magic, encode}
use adbcpp.Session.{Frame}
use adbcpp.Session.Frames.{IsFrame}
use adbcpp.Connection.{Connection, fresh}
use adbcpp.Stream.{Stream, read_all, receive_more, open_stream}
use adbcpp.Stream.Steps.{chan, linked}
use adbcpp.Stream.Next.{written, wire, next_event, Ends, receive_more-next}
use adbcpp.Stream.Opening.{Opens, open_stream-Opens, first_reply}
use adbcpp.Stream.Moving.{Operation, construct, assign, destroy, operate_all}
use adbcpp.Stream.Owning.{Keeps, operate_all-Keeps}
use adbcpp.Stream.Reading.{collect, Gathers, read_all-collect}
use adbcpp.Examples.Frames.{greeting_frame, greeting-IsFrame, link_of}

-- CLSE(3, 2) of this stream, and an OKAY of another.
abbrev farewell : Frame
farewell = record {
  header = record {
    command = clse;
    arg0 = 3;
    arg1 = 2;
    data_length = 0;
    data_check = 0;
    magic = 0xffff_ffff - clse;
  };
  payload = [];
}

abbrev stray : Frame
stray = record {
  header = record {
    command = okay;
    arg0 = 7;
    arg1 = 9;
    data_length = 0;
    data_check = 0;
    magic = 0xffff_ffff - okay;
  };
  payload = [];
}

farewell-IsFrame : IsFrame farewell
unfolding compute_magic
farewell-IsFrame = record {
  words = omega arith;
  consistent = record { magic = refl; size = refl; bound = omega arith; check = inl refl };
}

stray-IsFrame : IsFrame stray
unfolding compute_magic
stray-IsFrame = record {
  words = omega arith;
  consistent = record { magic = refl; size = refl; bound = omega arith; check = inl refl };
}

abbrev script : List Frame
script = stray ∷ greeting_frame ∷ farewell ∷ []

abbrev device : Link
device = link_of (chunk (wire script ++ []) ∷ [])

script_delivered : deliverable device.arrivals ≡ wire script ++ []
unfolding encode write_u32_le
script_delivered = refl

abbrev talking : Stream
talking = record {
  service = codes "shell:x";
  local_id = 2;
  remote_id = 3;
  closed = false;
  incoming = [];
  incoming_offset = 0;
}

abbrev host : Connection
host = fresh device

script_collected : collect 2 script ≡ some (codes "hi" ∷ [], [])
unfolding collect
script_collected = refl

receive_more-next_example :
    Ends
      (written (codes "hi"))
      host
      device
      talking
      (wire (farewell ∷ []) ++ [])
      (receive_more (chan host device talking))
unfolding next_event
receive_more-next_example =
    receive_more-next host talking [] script device (written (codes "hi")) (farewell ∷ []) refl
      (stray-IsFrame, (greeting-IsFrame, (farewell-IsFrame, tt))) script_delivered refl

read_all-collect_example :
    Gathers host device talking [] (codes "hi" ∷ []) [] (read_all (chan host device talking))
read_all-collect_example =
    read_all-collect host talking [] script device (codes "hi" ∷ []) [] refl
      (stray-IsFrame, (greeting-IsFrame, (farewell-IsFrame, tt))) script_delivered script_collected

-- A device that closes the stream 2 that the host opens.
abbrev refusing : Link
refusing = link_of (chunk (wire (stray ∷ farewell ∷ []) ++ []) ∷ [])

abbrev opening_host : Connection
opening_host = record (fresh refusing) { next_local_id = 2 }

refusal_delivered : deliverable refusing.arrivals ≡ wire (stray ∷ farewell ∷ []) ++ []
unfolding encode write_u32_le
refusal_delivered = refl

refusal_first : first_reply 2 (stray ∷ farewell ∷ []) ≡ some (farewell, [])
unfolding first_reply
refusal_first = refl

open_stream-Opens_example :
    Opens opening_host
      (codes "shell:x")
      refusing
      farewell
      (wire [] ++ [])
      (open_stream (codes "shell:x") (linked opening_host refusing))
open_stream-Opens_example =
    open_stream-Opens opening_host refusing (codes "shell:x") [] (stray ∷ farewell ∷ []) farewell []
      refl (omega arith) (stray-IsFrame, (farewell-IsFrame, tt)) refusal_delivered refusal_first

-- Two streams of which the second is moved to a third object, which is moved to the first, which is
-- destroyed.
abbrev other : Stream
other = record talking { local_id = 4; remote_id = 9 }

abbrev some_operations : List Operation
some_operations = construct [] 1 ∷ assign [] 0 2 ∷ destroy 0 ∷ destroy 1 ∷ []

operate_all-Keeps_example : Keeps host device (talking ∷ other ∷ []) (
    operate_all some_operations
      (record { connection = linked host device; streams = talking ∷ other ∷ [] }))
operate_all-Keeps_example =
    operate_all-Keeps host (talking ∷ other ∷ []) some_operations device refl
