-- ===== src/DateParse/Date/Month/Months.antt =====
-- The words of a date in the turns of the date loop behind the full name of a month, and behind a day of the week.
use watchmaker.Prelude.{ℕ, ◌≡◌, arith}
use watchmaker.Go.Text.{Bytes}
use watchmaker.DateParse.States.{
  date_alpha_ws_month, date_alpha_ws_month_more, date_alpha_ws_month_suffix, date_alpha_ws_more,
  date_alpha_period_ws_digit, date_weekday_comma, date_weekday_abbrev_comma,
}
use watchmaker.DateParse.Fields.{Parser}
use watchmaker.DateParse.Runes.{Tables}
use watchmaker.DateParse.Date.Month.{
  Spelled, WordsOf, set-Writes, set_month-Writes, set_day-Writes, set_year-Writes,
}
use watchmaker.DateParse.Date.Months.{
  ws_month_step, month_more_step, suffix_step, ws_more_step, period_digit_step, weekday_step,
  weekday_abbrev_step,
}

module _ (u : Tables) (s : Bytes) (i r : ℕ) (p : Parser) where
  pub ws_month-Spelled :
      p.state_date ≡ date_alpha_ws_month
      → WordsOf p.state_date i p
      → Spelled i (ws_month_step i r p)
  unfolding ws_month_step
  ws_month-Spelled h g =
      grind (arith, set-Writes, set_month-Writes, set_day-Writes, set_year-Writes)

  pub month_more-Spelled :
      p.state_date ≡ date_alpha_ws_month_more
      → WordsOf p.state_date i p
      → Spelled i (month_more_step i r p)
  unfolding month_more_step
  month_more-Spelled h g =
      grind (arith, set-Writes, set_month-Writes, set_day-Writes, set_year-Writes)

  pub suffix-Spelled :
      p.state_date ≡ date_alpha_ws_month_suffix
      → WordsOf p.state_date i p
      → Spelled i (suffix_step s i r p)
  unfolding suffix_step
  suffix-Spelled h g = grind (arith, set-Writes, set_month-Writes, set_day-Writes, set_year-Writes)

  pub ws_more-Spelled :
      p.state_date ≡ date_alpha_ws_more
      → WordsOf p.state_date i p
      → Spelled i (ws_more_step u i r p)
  unfolding ws_more_step
  ws_more-Spelled h g = grind (arith, set-Writes, set_month-Writes, set_day-Writes, set_year-Writes)

  pub period_digit-Spelled :
      p.state_date ≡ date_alpha_period_ws_digit
      → WordsOf p.state_date i p
      → Spelled i (period_digit_step u s i r p)
  unfolding period_digit_step
  period_digit-Spelled h g =
      grind (arith, set-Writes, set_month-Writes, set_day-Writes, set_year-Writes)

  pub weekday-Spelled :
      p.state_date ≡ date_weekday_comma → WordsOf p.state_date i p → Spelled i (weekday_step i r p)
  unfolding weekday_step
  weekday-Spelled h g = grind (arith, set-Writes, set_month-Writes, set_day-Writes, set_year-Writes)

  pub weekday_abbrev-Spelled :
      p.state_date ≡ date_weekday_abbrev_comma
      → WordsOf p.state_date i p
      → Spelled i (weekday_abbrev_step i r p)
  unfolding weekday_abbrev_step
  weekday_abbrev-Spelled h g =
      grind (arith, set-Writes, set_month-Writes, set_day-Writes, set_year-Writes)
