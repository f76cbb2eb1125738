-- ===== src/DateParse/Date/Month/Slashes.antt =====
-- The words of a date in the turns of the date loop in dates with slashes, colons and periods.
use watchmaker.Prelude.{ℕ, ◌≡◌, arith}
use watchmaker.Go.Text.{Bytes}
use watchmaker.DateParse.States.{
  date_digit_dot, date_digit_slash, date_digit_year_slash, date_digit_slash_alpha, date_digit_colon,
  date_digit_ws, date_digit_ws_mo_year,
}
use watchmaker.DateParse.Fields.{Parser}
use watchmaker.DateParse.Runes.{Tables}
use watchmaker.DateParse.Date.Month.{
  Spelled, WordsOf, set-Writes, set_month-Writes, set_day-Writes, set_year-Writes,
}
use watchmaker.DateParse.Date.Slashes.{
  year_slash_step, slash_alpha_step, slash_step, colon_step, dot_step, digit_ws_step,
  ws_mo_year_step,
}

module _ (u : Tables) (s : Bytes) (i r : ℕ) (p : Parser) where
  pub year_slash-Spelled :
      p.state_date ≡ date_digit_year_slash
      → WordsOf p.state_date i p
      → Spelled i (year_slash_step i r p)
  unfolding year_slash_step
  year_slash-Spelled h g =
      grind (arith, set-Writes, set_month-Writes, set_day-Writes, set_year-Writes)

  pub slash_alpha-Spelled :
      p.state_date ≡ date_digit_slash_alpha
      → WordsOf p.state_date i p
      → Spelled i (slash_alpha_step i r p)
  unfolding slash_alpha_step
  slash_alpha-Spelled h g =
      grind (arith, set-Writes, set_month-Writes, set_day-Writes, set_year-Writes)

  pub slash-Spelled :
      p.state_date ≡ date_digit_slash → WordsOf p.state_date i p → Spelled i (slash_step i r p)
  unfolding slash_step
  slash-Spelled h g = grind (arith, set-Writes, set_month-Writes, set_day-Writes, set_year-Writes)

  pub colon-Spelled :
      p.state_date ≡ date_digit_colon → WordsOf p.state_date i p → Spelled i (colon_step i r p)
  unfolding colon_step
  colon-Spelled h g = grind (arith, set-Writes, set_month-Writes, set_day-Writes, set_year-Writes)

  pub dot-Spelled :
      p.state_date ≡ date_digit_dot → WordsOf p.state_date i p → Spelled i (dot_step i r p)
  unfolding dot_step
  dot-Spelled h g = grind (arith, set-Writes, set_month-Writes, set_day-Writes, set_year-Writes)

  pub digit_ws-Spelled :
      p.state_date ≡ date_digit_ws → WordsOf p.state_date i p → Spelled i (digit_ws_step i r p)
  unfolding digit_ws_step
  digit_ws-Spelled h g =
      grind (arith, set-Writes, set_month-Writes, set_day-Writes, set_year-Writes)

  pub ws_mo_year-Spelled :
      p.state_date ≡ date_digit_ws_mo_year
      → WordsOf p.state_date i p
      → Spelled i (ws_mo_year_step i r p)
  unfolding ws_mo_year_step
  ws_mo_year-Spelled h g =
      grind (arith, set-Writes, set_month-Writes, set_day-Writes, set_year-Writes)
