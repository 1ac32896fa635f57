-- ===== src/Dispatch.antt =====
-- The queue of requests that wait to be sent (scrutiny/server/device/request_dispatcher.py).
pub mod Queue
pub mod Order
pub mod Dispatcher
pub mod Admission
mod Tests
