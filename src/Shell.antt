-- ===== src/Shell.antt =====
-- src/shell.cpp and include/adbcpp/shell.hpp: commands on the device, over the two shell services.
pub mod Packets
use adbcpp.Base.{
  ℕ, zero, suc, ◌+◌, List, [], ◌∷◌, ◌++◌, Bool, true, false, ◌&&◌, ◌||◌, ltb, leb, ◌==◌,
  if◌then◌else◌, length, take, drop, get_or, codes,
}
use adbcpp.Outcome.{Result, ok, err, stuck}
use adbcpp.Outcome.Exec.{Exec, pure, ◌>>=◌, continue}
use adbcpp.Protocol.ByteOrder.{read_u32_le}
use adbcpp.Connection.{Connection, supports_feature}
use adbcpp.Stream.{Channel, read_all, with_stream}

pub record CommandResult : Type 0 where
  pub output : List ℕ
  pub standard_output : List ℕ
  pub error_output : List ℕ
  pub exit_code : ℕ
  pub success : Bool

pub data ShellProtocol : Type 0 where
  auto v2 v1 : ShellProtocol

-- Value initialization.
abbrev pub no_result : CommandResult
no_result = record {
  output = [];
  standard_output = [];
  error_output = [];
  exit_code = 0;
  success = false;
}

abbrev pub raw_result : List ℕ → CommandResult
raw_result raw = record no_result { output = raw; success = true }

unfoldable pub run_v1 : List ℕ → Exec Connection CommandResult
run_v1 command = with_stream (codes "shell:" ++ command) (do raw ← read_all; pure (raw_result raw))

-- A packet's part in the result: `id` and its bytes.
unfoldable pub add_packet : ℕ → List ℕ → CommandResult → CommandResult
add_packet id bytes r =
    if id == 1
    then record r { standard_output = r.standard_output ++ bytes; output = r.output ++ bytes }
    else if id == 2
    then record r { error_output = r.error_output ++ bytes; output = r.output ++ bytes }
    else if id == 3
    then (if leb 1 (length bytes) then record r { exit_code = get_or bytes 0 0 } else r)
    else r

-- The loop over the packets, on the bytes from `offset` on. Each round takes five bytes or more.
unfoldable pub parse_packets : ℕ → List ℕ → CommandResult → CommandResult
parse_packets zero raw r = r
parse_packets (suc fuel) raw r =
    let size = read_u32_le (drop 1 raw) in
    let bytes = drop 5 raw in
    let next =
      parse_packets fuel (drop size bytes) (add_packet (get_or raw 0 0) (take size bytes) r) in
    if ltb (length raw) 5 then r else if ltb (length bytes) size then r else next

unfoldable pub packets_result : List ℕ → CommandResult
packets_result raw =
    let r = parse_packets (length raw) raw no_result in record r { success = r.exit_code == 0 }

unfoldable pub run_v2 : List ℕ → Exec Connection CommandResult
run_v2 command =
    with_stream (codes "shell,v2,raw:" ++ command) (do raw ← read_all; pure (packets_result raw))

abbrev pub uses_v2 : ShellProtocol → Connection → Bool
uses_v2 v2 c = true
uses_v2 auto c = supports_feature c (codes "shell_v2")
uses_v2 v1 c = false

unfoldable pub run : List ℕ → ShellProtocol → Exec Connection CommandResult
run command protocol c = if uses_v2 protocol c then run_v2 command c else run_v1 command c
