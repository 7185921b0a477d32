-- ===== src/Sat.antt =====
-- src/CmpSat.cc and src/IntSat.cc: the queries to the solver, and what is reported.
mod Comparisons
mod Bugs
mod Tests
