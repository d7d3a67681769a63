-- ===== src/Meta.antt =====
-- The meta group (src/meta).
pub mod Store
pub mod Cluster
pub mod Nodes
pub mod Placements
pub mod Maintenance
pub mod Catalog
pub mod Failure
pub mod Reconcile
pub mod Evaluate
pub mod Operations
pub mod Generations
pub mod Step
pub mod Invariant
