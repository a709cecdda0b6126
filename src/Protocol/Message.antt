-- ===== src/Protocol/Message.antt =====
-- include/adbcpp/protocol/message.hpp and src/protocol/message.cpp: the 24-byte header of a message.
pub mod RoundTrip
pub mod Checks
use adbcpp.Base.{ℕ, ◌+◌, ◌%◌, List, [], ◌∷◌, ◌++◌, bit_xor, ltb, if◌then◌else◌, length, drop, IsU32}
use adbcpp.Outcome.{Result, ok, err, error, invalid_argument}
use adbcpp.Protocol.ByteOrder.{write_u32_le, read_u32_le}

abbrev pub message_header_size : ℕ
message_header_size = 24

pub record Message : Type 0 where
  pub command : ℕ
  pub arg0 : ℕ
  pub arg1 : ℕ
  pub data_length : ℕ
  pub data_check : ℕ
  pub magic : ℕ

-- Every field is a `std::uint32_t`.
pub record IsMessage (m : Message) : Type 0 where
  pub command : IsU32 m.command
  pub arg0 : IsU32 m.arg0
  pub arg1 : IsU32 m.arg1
  pub data_length : IsU32 m.data_length
  pub data_check : IsU32 m.data_check
  pub magic : IsU32 m.magic

unfoldable pub compute_magic : ℕ → ℕ
compute_magic command = bit_xor command 0xffff_ffff

-- The loop over the payload, on the sum so far.
add_bytes : ℕ → List ℕ → ℕ
add_bytes sum [] = sum
add_bytes sum (value ∷ rest) = add_bytes ((sum + value) % 4294967296) rest

unfoldable pub compute_checksum : List ℕ → ℕ
unfolding add_bytes
compute_checksum bytes = add_bytes 0 bytes

unfoldable pub data_length_of : List ℕ → Result ℕ
data_length_of payload =
    if ltb 0xffff_ffff (length payload)
    then err (error invalid_argument "the payload is too large for the ADB header")
    else ok (length payload % 4294967296)

unfoldable pub encode : Message → List ℕ
encode m =
    write_u32_le m.command
    ++ (write_u32_le m.arg0
        ++ (write_u32_le m.arg1
            ++ (write_u32_le m.data_length ++ (write_u32_le m.data_check ++ write_u32_le m.magic))))

unfoldable pub decode : List ℕ → Message
decode bytes = record {
  command = read_u32_le (drop 0 bytes);
  arg0 = read_u32_le (drop 4 bytes);
  arg1 = read_u32_le (drop 8 bytes);
  data_length = read_u32_le (drop 12 bytes);
  data_check = read_u32_le (drop 16 bytes);
  magic = read_u32_le (drop 20 bytes);
}
