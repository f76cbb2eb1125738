-- ===== src/DateParse/Clock.antt =====
-- date_parse.go: the loop of `parseTime` over the time of day.
pub mod Start
pub mod Zones
pub mod Periods
pub mod Turn
pub mod End
pub mod Kept
pub mod Sound
pub mod Ends
pub mod Rest
pub mod Room
