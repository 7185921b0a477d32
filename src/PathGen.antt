-- ===== src/PathGen.antt =====
-- src/PathGen.cc: under which condition control reaches a basic block.
mod Guards
mod Runs
mod Terminators
mod Exact
mod Total
mod Dominators
mod Covers
mod Tests
unfoldable pub use Guards.*
