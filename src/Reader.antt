-- ===== src/Reader.antt =====
-- The memory reader (scrutiny/server/device/submodules/memory_reader.py): it polls the device for the
-- watched variables and published values, and serves the reads of raw memory.
pub mod State
pub mod Loop
pub mod Variables
pub mod Published
pub mod Gathering
pub mod Turns
pub mod Fullness
pub mod Asking
pub mod Requests
pub mod Polled
pub mod PolledTurns
pub mod Raw
pub mod Callbacks
pub mod Process
pub mod Device
pub mod Pieces
pub mod Reassembly
pub mod Mistakes
mod Tests
