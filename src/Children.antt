-- ===== src/Children.antt =====
-- cmd/watchmaker.go: the processes below a process, and the command itself.
pub mod Stat
pub mod Tree
pub mod Command
mod Tests
