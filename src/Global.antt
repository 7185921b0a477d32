-- ===== src/Global.antt =====
-- src/IntGlobal.cc and src/IntGlobal.h: what the whole-program analyses share.
pub mod Driver
pub mod FixedPoint
pub mod TaintMap
mod Tests
