-- ===== src/DateParse/Date.antt =====
-- date_parse.go: the loop of `parseTime` over the date. In it the text of the parser is `datestr`.
pub mod Digits
pub mod Dashes
pub mod Slashes
pub mod Words
pub mod Months
pub mod Turn
pub mod End
pub mod Fine
pub mod Ends
pub mod Month
pub mod Spelled
pub mod Result
