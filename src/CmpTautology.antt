-- ===== src/CmpTautology.antt =====
-- src/CmpTautology.cc: comparisons that always come out the same.
mod Pass
mod Sound
mod Tests
