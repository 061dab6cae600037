-- ===== src/Cli.antt =====
-- src/cli: the command line.
pub mod Arguments
pub mod Settings
pub mod Consent
