-- ===== src/Tests.antt =====
-- Runs at concrete inputs, a module per part of the program.
mod Keys
mod Session
mod Pacing
mod Wait
mod Daemon
mod Handlers
mod Wire
mod Client
mod Cli
mod Server
mod Recording
mod Serve
mod Starting
mod Socket
mod Main
mod Watching
