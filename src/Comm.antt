-- ===== src/Comm.antt =====
-- The exchange of frames with a device: a timer, the throttling of the traffic, and the handler
-- (scrutiny/tools/timer.py, scrutiny/tools/throttler.py, scrutiny/server/protocol/comm_handler.py).
pub mod Timer
pub mod Throttler
pub mod Handler
mod Tests
