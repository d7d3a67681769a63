-- ===== src/Tests.antt =====
-- Concrete codecs and states, and the theorems at them.
mod Fixtures
mod Partition
mod Meta
mod Balancer
mod Failure
mod Verify
mod Admission
mod Readiness
mod Config
mod Oracles
mod Reports
mod Frame
mod Durability
mod Rebalancer
mod Outbox
