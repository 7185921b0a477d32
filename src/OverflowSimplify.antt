-- ===== src/OverflowSimplify.antt =====
-- src/OverflowSimplify.cc: overflow intrinsics with a constant operand become plain comparisons.
mod Pass
mod Constants
mod Correct
mod Tests
unfoldable pub use Pass.*
