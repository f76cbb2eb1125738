-- ===== src/Skew.antt =====
-- time_skew_linux.go: the configuration of a skew, and its injection into a process. The mutex
-- makes the calls of one `Skew` follow each other, which a sequence of calls does by itself.
pub mod Config
mod Inject
pub mod Recovery
mod Tests
pub use Inject.*
