-- ===== src/Memory/Write.antt =====
-- `write_cluster` and `write` of scrutiny/core/memory_content.py: a range is deleted, the cluster
-- is inserted, and its neighbours are agglomerated.
pub mod Insert
pub mod Written
