-- ===== src/DateParse.antt =====
-- date_parse.go: the state of the date parser and the methods that change its layout.
pub mod States
mod Fields
mod Time
pub mod Runes
pub mod Steps
pub mod Loop
pub mod Weight
pub mod Width
pub mod Date
pub mod Clock
pub mod Whole
pub mod Exported
pub mod Usable
pub mod Once
pub mod Ready
pub mod Returns
pub mod Settled
pub mod Runs
pub mod Given
pub mod Stamps
pub mod Dashed
pub mod Moment
pub mod Refused
pub mod Strict
pub mod Slashed
pub mod Swapped
pub mod Retry
pub mod Samples
mod RunTests
pub mod Aligned
pub mod Fraction
pub mod Written
mod Tests
unfoldable pub use Fields.*
unfoldable pub use Time.*
