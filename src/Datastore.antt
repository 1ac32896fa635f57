-- ===== src/Datastore.antt =====
-- The datastore of the server (scrutiny/server/datastore): the entries, who watches them, and the updates
-- that wait for the memory writer.
pub mod Entry
pub mod State
pub mod Watching
pub mod Updating
pub mod Hidden
pub mod Aliases
mod Tests
