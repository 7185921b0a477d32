-- ===== src/ValueGen.antt =====
-- src/ValueGen.cc: the solver's expressions for the values of the IR.
mod Translate
mod Widths
mod Correct
pub mod Ranges
mod Offsets
mod Addresses
mod Tests
