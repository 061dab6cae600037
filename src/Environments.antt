-- ===== src/Environments.antt =====
-- The life of the local environments: what an action runs, their receipts, and their review.
pub mod Lifecycle
pub mod Markers
pub mod Review
pub mod StalePlan
pub mod Topology
pub mod ResourcePolicy
