-- ===== src/Shaping.antt =====
-- src/source/shaping: the bounded sample of a source that keeps its relationships.
pub mod Keys
pub mod Policy
pub mod Declarations
pub mod Validation
pub mod Accepted
pub mod Contexts
pub mod Index
pub mod Selection
pub mod Buckets
pub mod Classify
pub mod Classes
pub mod Measuring
pub mod Profiling
pub mod Joints
pub mod Roots
pub mod Steps
pub mod Rooting
pub mod Budgets
pub mod Closure
pub mod Walks
pub mod Growth
pub mod Rounds
pub mod Reach
pub mod Sample
pub mod Origins
pub mod Drawn
pub mod Members
pub mod Promise
pub mod Required
