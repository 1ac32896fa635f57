-- ===== src/Connect.antt =====
-- The state machines that keep a connection to a device (scrutiny/server/device/submodules).
pub mod Submit
pub mod Heartbeat
pub mod Session
pub mod Searcher
pub mod Liveness
pub mod Granted
mod Tests
