-- ===== src/Waiting.antt =====
-- `wait_readable` of src/transport.cpp, over several transports, and `connect_with_retry` of
-- include/adbcpp/connection.hpp.
pub mod Polling
pub mod Retry
