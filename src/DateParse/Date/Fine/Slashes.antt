-- ===== src/DateParse/Date/Fine/Slashes.antt =====
-- The turns of the date loop in dates with slashes, colons and periods: nothing panics, and what is kept.
use watchmaker.Prelude.{ℕ, ◌≡◌, ◌≤◌, arith}
use watchmaker.Go.Text.{Bytes}
use watchmaker.DateParse.States.{
  date_digit_dot, date_digit_slash, date_digit_year_slash, date_digit_slash_alpha, date_digit_colon,
  date_digit_ws, date_digit_ws_mo_year,
}
use watchmaker.DateParse.Fields.{Parser}
use watchmaker.DateParse.Runes.{Tables}
use watchmaker.DateParse.Date.Fine.{
  Fine, set-Same, set-Stays, set_month-Same, set_day-Same, set_year-Same,
}
use watchmaker.DateParse.Date.Slashes.{
  year_slash_step, slash_alpha_step, slash_step, colon_step, dot_step, digit_ws_step,
  ws_mo_year_step,
}

module _ (u : Tables) (s : Bytes) (i r : ℕ) (p : Parser) where
  pub year_slash-Fine :
      p.state_date ≡ date_digit_year_slash → 1 ≤ i → Fine s i p (year_slash_step i r p)
  unfolding year_slash_step
  year_slash-Fine h g =
      grind (arith, set-Same, set-Stays, set_month-Same, set_day-Same, set_year-Same)

  pub slash_alpha-Fine :
      p.state_date ≡ date_digit_slash_alpha → 1 ≤ i → Fine s i p (slash_alpha_step i r p)
  unfolding slash_alpha_step
  slash_alpha-Fine h g =
      grind (arith, set-Same, set-Stays, set_month-Same, set_day-Same, set_year-Same)

  pub slash-Fine : p.state_date ≡ date_digit_slash → 1 ≤ i → Fine s i p (slash_step i r p)
  unfolding slash_step
  slash-Fine h g = grind (arith, set-Same, set-Stays, set_month-Same, set_day-Same, set_year-Same)

  pub colon-Fine : p.state_date ≡ date_digit_colon → 1 ≤ i → Fine s i p (colon_step i r p)
  unfolding colon_step
  colon-Fine h g = grind (arith, set-Same, set-Stays, set_month-Same, set_day-Same, set_year-Same)

  pub dot-Fine : p.state_date ≡ date_digit_dot → 1 ≤ i → Fine s i p (dot_step i r p)
  unfolding dot_step
  dot-Fine h g = grind (arith, set-Same, set-Stays, set_month-Same, set_day-Same, set_year-Same)

  pub digit_ws-Fine : p.state_date ≡ date_digit_ws → 1 ≤ i → Fine s i p (digit_ws_step i r p)
  unfolding digit_ws_step
  digit_ws-Fine h g =
      grind (arith, set-Same, set-Stays, set_month-Same, set_day-Same, set_year-Same)

  pub ws_mo_year-Fine :
      p.state_date ≡ date_digit_ws_mo_year → 1 ≤ i → Fine s i p (ws_mo_year_step i r p)
  unfolding ws_mo_year_step
  ws_mo_year-Fine h g =
      grind (arith, set-Same, set-Stays, set_month-Same, set_day-Same, set_year-Same)
