-- ===== src/Protocol.antt =====
-- src/protocol and include/adbcpp/protocol: byte order, command words and message headers.
pub mod ByteOrder
pub mod Commands
pub mod Message
