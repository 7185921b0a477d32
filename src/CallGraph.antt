-- ===== src/CallGraph.antt =====
-- src/CallGraph.cc: which functions a pointer may be, over the whole program.
mod Find
mod Init
mod Pass
mod Sets
mod Exact
mod Grows
mod Steps
mod Driven
mod Ends
mod Walks
mod Tests
