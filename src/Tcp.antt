-- ===== src/Tcp.antt =====
-- src/tcp/tcp_transport.cpp: the transport over a socket, in its POSIX branch. The calls of the
-- system and the clock are a parameter, `Sockets`, whose calls change a state of their own.
pub mod Endpoint
pub mod Channel
pub mod Opening
pub mod Sending
pub mod Receiving
pub mod Leaving
