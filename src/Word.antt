-- ===== src/Word.antt =====
-- Machine integers: their operations, their signed reading, and lemmas on both.
mod Defs
mod Signed
mod Laws
mod Products
unfoldable pub use Defs.*
unfoldable pub use Signed.*
pub use Laws.*
pub use Products.*
