-- ===== src/Lib.antt =====
-- adbcpp, a client of the Android Debug Bridge: its library, from the bytes of a header up to the
-- file and package services.
--
-- The parts, and how they stand on each other. A transport (include/adbcpp/transport.hpp) moves
-- bytes. A session (src/session.cpp) cuts them into frames, a 24-byte header
-- (src/protocol/message.cpp, src/protocol/byte_order.hpp) with a payload, and closes itself when the
-- bytes can no longer be trusted. A connection (src/connection.cpp) owns a session and what the
-- handshake found out about the device. A stream (src/stream.cpp) borrows a connection and talks to
-- one service. The services are the shell (src/shell.cpp), files (src/sync.cpp) and, by commands of
-- the shell, packages (src/app.cpp).
--
-- Outcome: `Error`, `Result` and `Status` of include/adbcpp/error.hpp; Outcome/Exec is the monad of an
--   operation on an object, which keeps the object also where the operation fails. `stuck` marks a
--   loop of the model without fuel and is no outcome of the program.
-- Transport: `Link`, a transport by its script: the arrivals that reads return (chunks of bytes, and
--   errors), the verdicts on writes, what was written and whether it was closed. An empty verdict
--   list accepts every write. It is MockTransport of include/adbcpp/testing/mock_transport.hpp, with
--   failures. Transport/Deliver: the bytes that a link delivers.
-- Protocol/ByteOrder, Protocol/Commands, Protocol/Message: the header and its words; native numbers,
--   with `% 2 ^ 32` written out where a 32-bit word wraps. Children: RoundTrip, Checks.
-- Session: `send`, `receive`, `close` and the move constructor; Session/Frames, Reading, Receiving,
--   Sending, Totality and History hold the proofs.
-- Connection: the record, the handshake of `Connection::connect` cut at its branches, identifiers and
--   features; Connection/Banner: the parsers. The signer and the key are arguments.
--   Connection/Dialogue: the handshake as a step relation on the frames of a device; Calls, Replies,
--   Handshake and Settling: the proofs that `connect` follows it; Features and Identity: proofs on
--   banners.
-- Stream: `open_stream` is Stream::open, `close_now` also the destructor, `with_stream` a scope that
--   owns a stream; `Channel` is a stream with its connection. Stream/Moving: the move constructor and
--   the move assignment, on objects in a list that borrow one connection. Stream/Steps, Next, Opening,
--   Reading, Payloads, Supply (with Refill and Filling), Writing, Serving and Owning: proofs.
-- Shell: `run` and the packets of `shell,v2`; Shell/Packets: proofs.
-- Sync/Wire, Sync/Codec, Sync/Stat, Sync/Listing, Sync/Pull, Sync/Push: requests, the choice of a
--   codec, and stat, list, pull and push; Sync/Clock: the time of a local file.
--   Sync/Choice, Upload, Decimal, Words, Replies, Download, Pulling, RoundTrip, Pushing, Entries,
--   Directory and Metadata: proofs.
-- App: the package operations; App/Quoting and App/Reason: proofs.
-- Compression: the decoders of src/compression.cpp and the compression of a chunk, over the steps of
--   the libraries; Compression/Decoding and Libraries: proofs, the latter of the libraries as the
--   `Codecs` of Sync.
-- Crypto: src/crypto/adb_key.cpp. Crypto/Newton: `inverse_mod_2_32`; Crypto/Encoding: the public key
--   and the fingerprint, over mbedTLS (`Mbed`); Crypto/Key: `generate`, `load_or_generate` and `sign`
--   over the host (`Host`); Crypto/Host: what the documentation promises of that host;
--   Crypto/Layout, Storing and Loading: proofs. Its `write_u32_le` and `read_u32_le` are those of
--   Protocol/ByteOrder, which do the same.
-- Usb: src/usb/usb_transport.cpp over libusb. Usb/Bulk: `bulk_transfer`; Usb/Channel: `Usb`, the state
--   of UsbTransport, with `read`, `write`, `wait_readable` and `close` over `Libusb`; Usb/Devices: the
--   search of devices and interfaces over `Devices`; Usb/Opening: `open_usb` is UsbTransport::open.
--   Usb/Buffering, Bounds, Faults, Waiting, Finding, Endpoints, Interfaces, Opened and Leaving: proofs.
-- Tcp: src/tcp/tcp_transport.cpp over the calls of the system (`Sockets`), in the POSIX branch.
--   Tcp/Endpoint: `host:port`; Tcp/Channel: the state and its operations; Tcp/Opening: `open_endpoint`
--   is TcpTransport::open; Tcp/Sending, Receiving and Leaving: proofs.
-- Waiting/Polling: `wait_readable` of src/transport.cpp; Waiting/Retry: `connect_with_retry` of
--   include/adbcpp/connection.hpp. Log: src/log.cpp.
-- Examples: concrete inputs.
--
-- Fuel. `read_loop` has the number of bytes that it reads, since a read without a byte ends it. The
-- loops of a stream have one round more than the weight of the link (its arrivals and their bytes),
-- since a frame takes 24 bytes; a read of n bytes has n more. The loops of the sync service have the
-- bytes that are buffered besides, since a round takes eight bytes or more. `parse_packets` and
-- `send_chunks` have the length of their input, `features_loop` one more, and `to_string` the ten
-- digits of a word.
--
-- The retries of `bulk_transfer`, of the reads and writes of a socket and of `wait_readable` have a
-- round for each millisecond of their budget and one more (a write one for each byte besides), which
-- is enough where the clock moves on over a call that waits. The decoders take their fuel as an
-- argument, since how much a library can produce is the library's.
--
-- Parameters: the codecs of the linked libraries (`Codecs`, and their steps in Compression), the
-- signer of a token, the local file system and clock (`Sink`, `LocalFile`, `Clocks`), libusb
-- (`Libusb`, `Devices`, `Opens`, `Claims`), the calls of the system on sockets (`Sockets`), and mbedTLS and
-- the host of a key (`Mbed`, `Host`). A code of libusb or mbedTLS stands by its absolute value. A
-- failed write to a local file leaves what was written before.
--
-- Not modelled: log calls in the other components; the Windows branches; the contexts and lists that
-- libusb allocates and the bignums of mbedTLS, which are freed on every path; the examples, tests and
-- tools.
pub mod Base
pub mod Outcome
pub mod Protocol
pub mod Transport
pub mod Session
pub mod Connection
pub mod Stream
pub mod Shell
pub mod Sync
pub mod Crypto
pub mod Log
pub mod Waiting
pub mod Compression
pub mod Usb
pub mod Tcp
pub mod App
pub mod Examples
