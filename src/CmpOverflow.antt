-- ===== src/CmpOverflow.antt =====
-- src/CmpOverflow.cc: comparisons with constants that fail to guard a + x * b.
mod Pass
mod Bounds
mod Tests
unfoldable pub use Pass.*
