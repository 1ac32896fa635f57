-- ===== src/Memory/Agglomerate.antt =====
-- `MemoryContent.agglomerate` of scrutiny/core/memory_content.py after a cluster is inserted.
pub mod Steps
pub mod Scan
pub mod Neighbours
pub mod Front
