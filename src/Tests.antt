-- ===== src/Tests.antt =====
-- Concrete inputs: the theorems applied to them, and runs of the definitions.
mod Queue
mod History
mod Lexer
mod Capacity
mod Admission
mod Privacy
mod Environments
mod StalePlan
mod Topology
mod ResourcePolicy
mod Shaping
mod Profiles
mod Cli
mod Policies
