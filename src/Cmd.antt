-- ===== src/Cmd.antt =====
-- cmd/main.go: the start of the process.
pub mod Flags
pub mod Process
pub mod Servers
pub mod Configure
pub mod Main
