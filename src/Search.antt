-- ===== src/Search.antt =====
-- Full-text search (src/search): the index definitions that the meta group keeps.
pub mod Definition
pub mod Outbox
