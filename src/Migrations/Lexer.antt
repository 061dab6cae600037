-- ===== src/Migrations/Lexer.antt =====
-- src/runtime/migrations/inspection/migration_sql_lexer.mts: the bounded PostgreSQL lexer. The text
-- is a list of UTF-16 code units; `offset` is the rest of the text that is still to be read.
pub mod Scanners
pub mod Machine
pub mod Progress
pub mod Branches
pub mod Termination
pub mod Nesting
