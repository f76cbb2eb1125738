-- ===== src/DateParse/Date/Month/Digits.antt =====
-- The words of a date in the turns of the date loop at the start, and after digits only.
use watchmaker.Prelude.{ℕ, ◌≡◌, arith}
use watchmaker.Go.Text.{Bytes}
use watchmaker.DateParse.States.{date_start, date_digit, date_digit_st, date_digit_chinese_year}
use watchmaker.DateParse.Fields.{Parser}
use watchmaker.DateParse.Runes.{Tables}
use watchmaker.DateParse.Date.Month.{
  Spelled, WordsOf, set-Writes, set_month-Writes, set_day-Writes, set_year-Writes,
}
use watchmaker.DateParse.Date.Digits.{start_step, digit_step, digit_st_step, chinese_step}

module _ (u : Tables) (s : Bytes) (i r : ℕ) (p : Parser) where
  pub start-Spelled :
      p.state_date ≡ date_start → WordsOf p.state_date i p → Spelled i (start_step u s i r p)
  unfolding start_step
  start-Spelled h g = grind (arith, set-Writes, set_month-Writes, set_day-Writes, set_year-Writes)

  pub digit-Spelled :
      p.state_date ≡ date_digit → WordsOf p.state_date i p → Spelled i (digit_step u s i r p)
  unfolding digit_step
  digit-Spelled h g = grind (arith, set-Writes, set_month-Writes, set_day-Writes, set_year-Writes)

  pub digit_st-Spelled :
      p.state_date ≡ date_digit_st → WordsOf p.state_date i p → Spelled i (digit_st_step i p)
  unfolding digit_st_step
  digit_st-Spelled h g =
      grind (arith, set-Writes, set_month-Writes, set_day-Writes, set_year-Writes)

  pub chinese-Spelled :
      p.state_date ≡ date_digit_chinese_year
      → WordsOf p.state_date i p
      → Spelled i (chinese_step i r p)
  unfolding chinese_step
  chinese-Spelled h g = grind (arith, set-Writes, set_month-Writes, set_day-Writes, set_year-Writes)
