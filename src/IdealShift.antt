-- ===== src/IdealShift.antt =====
-- src/IdealShift.cc: shifts by too large an amount get a definite result.
mod Pass
mod Meaning
mod Tests
unfoldable pub use Pass.*
