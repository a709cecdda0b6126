-- ===== src/Examples.antt =====
-- Concrete runs of the models, and the theorems at concrete inputs.
mod Frames
mod Streams
mod Services
mod Files
mod Transfers
mod Links
mod Sockets
mod Keys
mod Handshakes
