-- ===== src/Cli/Parsers.antt =====
-- src/cli/bc_seek_cli_parsers.c
pub mod Unsigned
pub mod Sign
pub mod Size
pub mod SizeText
pub mod Mtime
pub mod Perm
pub mod TypeFilter
pub mod Threads
