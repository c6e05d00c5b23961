-- ===== src/Cli.antt =====
-- src/cli
pub mod Parsers
pub mod Spec
pub mod Allowed
pub mod Bind
pub mod Options
pub mod Bound
pub mod Reflects
