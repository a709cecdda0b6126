-- ===== src/Protocol/Commands.antt =====
-- include/adbcpp/protocol/commands.hpp
use adbcpp.Base.{ℕ, ◌*◌, bit_or}
use adbcpp.Protocol.ByteOrder.{shl32}

-- Four ASCII characters as a little-endian word.
abbrev pub make_command : ℕ → ℕ → ℕ → ℕ → ℕ
make_command a b c d = bit_or (bit_or (bit_or a (shl32 b 8)) (shl32 c 16)) (shl32 d 24)

abbrev pub cnxn : ℕ
cnxn = make_command b'C' b'N' b'X' b'N'

abbrev pub auth : ℕ
auth = make_command b'A' b'U' b'T' b'H'

-- `open` is a word of the language.
abbrev pub open_command : ℕ
open_command = make_command b'O' b'P' b'E' b'N'

abbrev pub okay : ℕ
okay = make_command b'O' b'K' b'A' b'Y'

abbrev pub clse : ℕ
clse = make_command b'C' b'L' b'S' b'E'

abbrev pub wrte : ℕ
wrte = make_command b'W' b'R' b'T' b'E'

abbrev pub version : ℕ
version = 0x01000001

abbrev pub max_data : ℕ
max_data = 1024 * 1024

abbrev pub auth_signature : ℕ
auth_signature = 2

abbrev pub auth_public_key : ℕ
auth_public_key = 3

abbrev pub initial_delayed_ack_bytes : ℕ
initial_delayed_ack_bytes = 256 * 1024
