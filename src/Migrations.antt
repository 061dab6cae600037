-- ===== src/Migrations.antt =====
-- src/runtime/migrations: histories of applied and local migrations, and the lexical scan of SQL.
pub mod History
pub mod Lexer
