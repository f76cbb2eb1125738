-- ===== src/DateParse/Date/Fine/Months.antt =====
-- The turns of the date loop behind the full name of a month, and behind a day of the week: nothing panics, and what is kept.
use watchmaker.Prelude.{ℕ, ◌≡◌, ◌≤◌, arith}
use watchmaker.Go.Text.{Bytes}
use watchmaker.DateParse.States.{
  date_alpha_ws_month, date_alpha_ws_month_more, date_alpha_ws_month_suffix, date_alpha_ws_more,
  date_alpha_period_ws_digit, date_weekday_comma, date_weekday_abbrev_comma,
}
use watchmaker.DateParse.Fields.{Parser}
use watchmaker.DateParse.Runes.{Tables}
use watchmaker.DateParse.Weight.{weight-cut}
use watchmaker.DateParse.Date.Fine.{
  Fine, set-Same, set-Stays, set_month-Same, set_day-Same, set_year-Same,
}
use watchmaker.DateParse.Date.Months.{
  ws_month_step, month_more_step, suffix_step, ws_more_step, period_digit_step, weekday_step,
  weekday_abbrev_step,
}

module _ (u : Tables) (s : Bytes) (i r : ℕ) (p : Parser) where
  pub ws_month-Fine : p.state_date ≡ date_alpha_ws_month → 1 ≤ i → Fine s i p (ws_month_step i r p)
  unfolding ws_month_step
  ws_month-Fine h g =
      grind (arith, set-Same, set-Stays, set_month-Same, set_day-Same, set_year-Same)

  pub month_more-Fine :
      p.state_date ≡ date_alpha_ws_month_more → 1 ≤ i → Fine s i p (month_more_step i r p)
  unfolding month_more_step
  month_more-Fine h g =
      grind (arith, set-Same, set-Stays, set_month-Same, set_day-Same, set_year-Same)

  pub suffix-Fine :
      p.state_date ≡ date_alpha_ws_month_suffix
      → (1 ≤ i) × (p.datestr ≡ s)
      → Fine s i p (suffix_step s i r p)
  unfolding suffix_step
  suffix-Fine h g =
      grind (arith, set-Same, set-Stays, set_month-Same, set_day-Same, set_year-Same, weight-cut)

  pub ws_more-Fine : p.state_date ≡ date_alpha_ws_more → 1 ≤ i → Fine s i p (ws_more_step u i r p)
  unfolding ws_more_step
  ws_more-Fine h g = grind (arith, set-Same, set-Stays, set_month-Same, set_day-Same, set_year-Same)

  pub period_digit-Fine :
      p.state_date ≡ date_alpha_period_ws_digit → 1 ≤ i → Fine s i p (period_digit_step u s i r p)
  unfolding period_digit_step
  period_digit-Fine h g =
      grind (arith, set-Same, set-Stays, set_month-Same, set_day-Same, set_year-Same)

  pub weekday-Fine : p.state_date ≡ date_weekday_comma → 1 ≤ i → Fine s i p (weekday_step i r p)
  unfolding weekday_step
  weekday-Fine h g = grind (arith, set-Same, set-Stays, set_month-Same, set_day-Same, set_year-Same)

  pub weekday_abbrev-Fine :
      p.state_date ≡ date_weekday_abbrev_comma → 1 ≤ i → Fine s i p (weekday_abbrev_step i r p)
  unfolding weekday_abbrev_step
  weekday_abbrev-Fine h g =
      grind (arith, set-Same, set-Stays, set_month-Same, set_day-Same, set_year-Same)
