-- ===== src/Runtime.antt =====
-- The process-local gates of src/runtime: client admission and the life cycle.
pub mod Admission
pub mod Readiness
