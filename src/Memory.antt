-- ===== src/Memory.antt =====
-- Sparse snapshots of a memory (scrutiny/core/memory_content.py).
pub mod Cluster
pub mod Content
pub mod Blocks
pub mod Place
pub mod Delete
pub mod Agglomerate
pub mod Write
pub mod Read
pub mod Contract
pub mod Listing
pub mod Emptied
pub mod EmptyWrite
mod Tests
