-- ===== src/Ir.antt =====
-- The part of LLVM's IR that the passes read and build, with its meaning.
mod Defs
mod Laws
unfoldable pub use Defs.*
pub use Laws.*
