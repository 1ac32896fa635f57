-- ===== src/Memory/Delete.antt =====
-- `MemoryContent.delete` of scrutiny/core/memory_content.py: the four edits, a round, the loop.
pub mod Edit
pub mod Remains
pub mod Edited
pub mod Touching
pub mod Round
pub mod Loop
