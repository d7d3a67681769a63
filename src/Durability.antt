-- ===== src/Durability.antt =====
-- What of a group's materialised state is visible and what is durable:
-- src/storage/apply_durability.rs.
pub mod LogIds
pub mod Tracker
pub mod Steps
pub mod Accounts
pub mod Lasting
pub mod Fences
pub mod Registry
