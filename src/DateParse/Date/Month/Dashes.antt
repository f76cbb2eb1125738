-- ===== src/DateParse/Date/Month/Dashes.antt =====
-- The words of a date in the turns of the date loop in dates with dashes.
use watchmaker.Prelude.{ℕ, ◌≡◌, arith}
use watchmaker.Go.Text.{Bytes}
use watchmaker.DateParse.States.{
  date_year_dash, date_year_dash_alpha_dash, date_year_dash_dash, date_year_dash_dash_offset,
  date_digit_dash, date_digit_dash_alpha, date_digit_dash_alpha_dash,
}
use watchmaker.DateParse.Fields.{Parser}
use watchmaker.DateParse.Runes.{Tables}
use watchmaker.DateParse.Date.Month.{
  Spelled, WordsOf, set-Writes, set_month-Writes, set_day-Writes, set_year-Writes,
}
use watchmaker.DateParse.Date.Dashes.{
  year_dash_step, year_dash_dash_step, year_offset_step, year_alpha_step, digit_dash_step,
  digit_alpha_step, digit_alpha_dash_step,
}

module _ (u : Tables) (s : Bytes) (i r : ℕ) (p : Parser) where
  pub year_dash-Spelled :
      p.state_date ≡ date_year_dash → WordsOf p.state_date i p → Spelled i (year_dash_step u i r p)
  unfolding year_dash_step
  year_dash-Spelled h g =
      grind (arith, set-Writes, set_month-Writes, set_day-Writes, set_year-Writes)

  pub year_dash_dash-Spelled :
      p.state_date ≡ date_year_dash_dash
      → WordsOf p.state_date i p
      → Spelled i (year_dash_dash_step i r p)
  unfolding year_dash_dash_step
  year_dash_dash-Spelled h g =
      grind (arith, set-Writes, set_month-Writes, set_day-Writes, set_year-Writes)

  pub year_offset-Spelled :
      p.state_date ≡ date_year_dash_dash_offset
      → WordsOf p.state_date i p
      → Spelled i (year_offset_step i r p)
  unfolding year_offset_step
  year_offset-Spelled h g =
      grind (arith, set-Writes, set_month-Writes, set_day-Writes, set_year-Writes)

  pub year_alpha-Spelled :
      p.state_date ≡ date_year_dash_alpha_dash
      → WordsOf p.state_date i p
      → Spelled i (year_alpha_step i r p)
  unfolding year_alpha_step
  year_alpha-Spelled h g =
      grind (arith, set-Writes, set_month-Writes, set_day-Writes, set_year-Writes)

  pub digit_dash-Spelled :
      p.state_date ≡ date_digit_dash
      → WordsOf p.state_date i p
      → Spelled i (digit_dash_step u s i r p)
  unfolding digit_dash_step
  digit_dash-Spelled h g =
      grind (arith, set-Writes, set_month-Writes, set_day-Writes, set_year-Writes)

  pub digit_alpha-Spelled :
      p.state_date ≡ date_digit_dash_alpha
      → WordsOf p.state_date i p
      → Spelled i (digit_alpha_step i r p)
  unfolding digit_alpha_step
  digit_alpha-Spelled h g =
      grind (arith, set-Writes, set_month-Writes, set_day-Writes, set_year-Writes)

  pub digit_alpha_dash-Spelled :
      p.state_date ≡ date_digit_dash_alpha_dash
      → WordsOf p.state_date i p
      → Spelled i (digit_alpha_dash_step i r p)
  unfolding digit_alpha_dash_step
  digit_alpha_dash-Spelled h g =
      grind (arith, set-Writes, set_month-Writes, set_day-Writes, set_year-Writes)
