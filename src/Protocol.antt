-- ===== src/Protocol.antt =====
-- The binary protocol between the server and a device (scrutiny/server/protocol).
pub mod Pack
pub mod Crc
pub mod Commands
pub mod Request
pub mod Response
pub mod CommControl
pub mod MemoryControl
mod Tests
