-- ===== src/Protocol.antt =====
-- protocol/: the wire protocol between the desktop and the console.
pub mod Crc
pub mod Frame
pub mod Message
pub mod Pipe
mod Tests
