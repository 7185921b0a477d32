-- ===== src/Range.antt =====
-- src/Range.cc and src/CRange.h: the ranges of values over the whole program.
mod Algebra
mod Shapes
mod Flat
mod State
mod Visits
mod Refine
mod Pass
mod Grows
mod Rounds
mod Ends
mod Sound
mod Results
mod Edges
mod Init
mod Held
mod Metadata
mod Tests
