-- ===== src/IntRewrite.antt =====
-- src/IntRewrite.cc: where an operation may go wrong, a call of `int.sat` on the condition.
mod Checks
mod Conditions
mod Sinks
mod Overflow
mod Covers
mod OverflowTests
mod Tests
unfoldable pub use Checks.*
