-- ===== src/Privacy.antt =====
-- src/baseline/privacy: the rules by which source data is sanitized.
pub mod Recipes
pub mod Dependencies
