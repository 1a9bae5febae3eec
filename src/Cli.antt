-- ===== src/Cli.antt =====
-- cmd/ht: the commands, on flags and arguments that `pflag` has parsed.
pub mod Numbers
pub mod Screen
pub mod Flags
pub mod Commands
pub mod Recording
pub mod Watching
pub mod Listing
pub mod Main
