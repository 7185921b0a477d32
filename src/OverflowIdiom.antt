-- ===== src/OverflowIdiom.antt =====
-- src/OverflowIdiom.cc: comparisons that test for overflow become overflow intrinsics.
mod Pass
mod Masks
mod Values
mod Correct
mod Tests
unfoldable pub use Pass.*
pub use Values.{compares_inverse}
