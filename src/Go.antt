-- ===== src/Go.antt =====
-- What the source uses of Go's standard library: machine integers, `strings` and `strconv`.
pub mod Words
pub mod Text
pub mod Strconv
