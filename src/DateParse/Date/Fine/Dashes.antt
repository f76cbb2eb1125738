-- ===== src/DateParse/Date/Fine/Dashes.antt =====
-- The turns of the date loop in dates with dashes: nothing panics, and what is kept.
use watchmaker.Prelude.{ℕ, ◌≡◌, ◌≤◌, arith}
use watchmaker.Go.Text.{Bytes}
use watchmaker.DateParse.States.{
  date_year_dash, date_year_dash_alpha_dash, date_year_dash_dash, date_year_dash_dash_offset,
  date_digit_dash, date_digit_dash_alpha, date_digit_dash_alpha_dash,
}
use watchmaker.DateParse.Fields.{Parser}
use watchmaker.DateParse.Runes.{Tables}
use watchmaker.DateParse.Date.Fine.{
  Fine, set-Same, set-Stays, set_month-Same, set_day-Same, set_year-Same,
}
use watchmaker.DateParse.Date.Dashes.{
  year_dash_step, year_dash_dash_step, year_offset_step, year_alpha_step, digit_dash_step,
  digit_alpha_step, digit_alpha_dash_step,
}

module _ (u : Tables) (s : Bytes) (i r : ℕ) (p : Parser) where
  pub year_dash-Fine : p.state_date ≡ date_year_dash → 1 ≤ i → Fine s i p (year_dash_step u i r p)
  unfolding year_dash_step
  year_dash-Fine h g =
      grind (arith, set-Same, set-Stays, set_month-Same, set_day-Same, set_year-Same)

  pub year_dash_dash-Fine :
      p.state_date ≡ date_year_dash_dash → 1 ≤ i → Fine s i p (year_dash_dash_step i r p)
  unfolding year_dash_dash_step
  year_dash_dash-Fine h g =
      grind (arith, set-Same, set-Stays, set_month-Same, set_day-Same, set_year-Same)

  pub year_offset-Fine :
      p.state_date ≡ date_year_dash_dash_offset → 1 ≤ i → Fine s i p (year_offset_step i r p)
  unfolding year_offset_step
  year_offset-Fine h g =
      grind (arith, set-Same, set-Stays, set_month-Same, set_day-Same, set_year-Same)

  pub year_alpha-Fine :
      p.state_date ≡ date_year_dash_alpha_dash → 1 ≤ i → Fine s i p (year_alpha_step i r p)
  unfolding year_alpha_step
  year_alpha-Fine h g =
      grind (arith, set-Same, set-Stays, set_month-Same, set_day-Same, set_year-Same)

  pub digit_dash-Fine :
      p.state_date ≡ date_digit_dash → 1 ≤ i → Fine s i p (digit_dash_step u s i r p)
  unfolding digit_dash_step
  digit_dash-Fine h g =
      grind (arith, set-Same, set-Stays, set_month-Same, set_day-Same, set_year-Same)

  pub digit_alpha-Fine :
      p.state_date ≡ date_digit_dash_alpha → 1 ≤ i → Fine s i p (digit_alpha_step i r p)
  unfolding digit_alpha_step
  digit_alpha-Fine h g =
      grind (arith, set-Same, set-Stays, set_month-Same, set_day-Same, set_year-Same)

  pub digit_alpha_dash-Fine :
      p.state_date ≡ date_digit_dash_alpha_dash → 1 ≤ i → Fine s i p (digit_alpha_dash_step i r p)
  unfolding digit_alpha_dash_step
  digit_alpha_dash-Fine h g =
      grind (arith, set-Same, set-Stays, set_month-Same, set_day-Same, set_year-Same)
