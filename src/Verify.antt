-- ===== src/Verify.antt =====
-- The checkers of recorded runs, src/verify.
pub mod Linearizability
pub mod Oracles
