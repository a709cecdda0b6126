-- ===== src/Sync.antt =====
-- src/sync.cpp and include/adbcpp/sync.hpp: files of the device, over its `sync:` service.
pub mod Wire
pub mod Codec
pub mod Choice
pub mod Clock
pub mod Stat
pub mod Listing
pub mod Pull
pub mod Push
pub mod Upload
pub mod Decimal
pub mod Words
pub mod Replies
pub mod Download
pub mod Pulling
pub mod RoundTrip
pub mod Pushing
pub mod Entries
pub mod Directory
pub mod Metadata
