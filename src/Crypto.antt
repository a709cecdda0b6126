-- ===== src/Crypto.antt =====
-- src/crypto/adb_key.cpp: the key pair of a host. mbedTLS, the file system and the environment are
-- parameters.
pub mod Newton
pub mod Encoding
pub mod Layout
pub mod Key
pub mod Host
pub mod Storing
pub mod Loading
