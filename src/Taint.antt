-- ===== src/Taint.antt =====
-- src/Taint.cc: which values come from untrusted input, over the whole program.
mod Pass
mod Grows
mod Steps
mod Ends
mod Values
mod Closed
mod Flows
mod Tests
