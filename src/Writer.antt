-- ===== src/Writer.antt =====
-- The memory writer (scrutiny/server/device/submodules/memory_writer.py): it writes raw memory and the
-- entries of the datastore to the device.
pub mod State
pub mod Raw
pub mod Entries
pub mod Callbacks
pub mod Process
pub mod Device
pub mod Pieces
pub mod Stored
pub mod Oversize
pub mod Updates
pub mod Repeated
pub mod Stuck
mod Tests
