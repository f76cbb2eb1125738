-- ===== src/DateParse/Date/Fine/Words.antt =====
-- The turns of the date loop in dates that start with a word: nothing panics, and what is kept.
use watchmaker.Prelude.{ℕ, ◌≡◌, ◌≤◌, ◌<◌, arith, length}
use watchmaker.Go.Text.{Bytes}
use watchmaker.DateParse.States.{
  date_alpha, date_alpha_ws, date_alpha_ws_digit, date_alpha_ws_digit_more,
  date_alpha_ws_digit_more_ws, date_alpha_ws_digit_yearmaybe,
}
use watchmaker.DateParse.Fields.{Parser}
use watchmaker.DateParse.Runes.{Tables}
use watchmaker.DateParse.Weight.{weight-cut}
use watchmaker.DateParse.Date.Fine.{
  Fine, set-Same, set-Stays, set_month-Same, set_day-Same, set_year-Same,
}
use watchmaker.DateParse.Date.Words.{
  alpha_step, alpha_ws_step, ws_digit_step, yearmaybe_step, digit_more_step, digit_more_ws_step,
}

module _ (u : Tables) (s : Bytes) (i r : ℕ) (p : Parser) where
  pub alpha-Fine :
      p.state_date ≡ date_alpha → (1 ≤ i) × (i < length s) → Fine s i p (alpha_step u s i r p)
  unfolding alpha_step
  alpha-Fine h g =
      grind (arith, set-Same, set-Stays, set_month-Same, set_day-Same, set_year-Same, weight-cut)

  pub alpha_ws-Fine : p.state_date ≡ date_alpha_ws → 1 ≤ i → Fine s i p (alpha_ws_step u i r p)
  unfolding alpha_ws_step
  alpha_ws-Fine h g =
      grind (arith, set-Same, set-Stays, set_month-Same, set_day-Same, set_year-Same)

  pub ws_digit-Fine :
      p.state_date ≡ date_alpha_ws_digit → 1 ≤ i → Fine s i p (ws_digit_step u i r p)
  unfolding ws_digit_step
  ws_digit-Fine h g =
      grind (arith, set-Same, set-Stays, set_month-Same, set_day-Same, set_year-Same)

  pub yearmaybe-Fine :
      p.state_date ≡ date_alpha_ws_digit_yearmaybe → 2 ≤ i → Fine s i p (yearmaybe_step i r p)
  unfolding yearmaybe_step
  yearmaybe-Fine h g =
      grind (arith, set-Same, set-Stays, set_month-Same, set_day-Same, set_year-Same)

  pub digit_more-Fine :
      p.state_date ≡ date_alpha_ws_digit_more → 1 ≤ i → Fine s i p (digit_more_step i r p)
  unfolding digit_more_step
  digit_more-Fine h g =
      grind (arith, set-Same, set-Stays, set_month-Same, set_day-Same, set_year-Same)

  pub digit_more_ws-Fine :
      p.state_date ≡ date_alpha_ws_digit_more_ws → 1 ≤ i → Fine s i p (digit_more_ws_step i r p)
  unfolding digit_more_ws_step
  digit_more_ws-Fine h g =
      grind (arith, set-Same, set-Stays, set_month-Same, set_day-Same, set_year-Same)
