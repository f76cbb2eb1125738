-- ===== src/Ptrace.antt =====
-- ptrace_linux.go, ptrace_linux_amd64.go and ptrace_linux_arm64.go: a program that is traced.
-- The methods of `TracedProgram` change the world and the two backups of the program.
pub mod Program
pub mod Syscall
pub mod Memory
pub mod Poke
pub mod Restore
pub mod Trace
pub mod Symbols
mod Tests
