-- ===== src/Values.antt =====
-- The types of values, the regions of memory (scrutiny/core/basic_types.py) and the range of integers
-- (scrutiny/core/codecs.py).
pub mod DataType
pub mod Region
pub mod Int
pub mod Saturation
mod Tests
