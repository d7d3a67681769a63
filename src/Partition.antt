-- ===== src/Partition.antt =====
-- The data groups (src/partition).
pub mod Membership
pub mod StateMachine
pub mod Register
pub mod Overlay
pub mod Coalesce
