-- ===== src/DateParse/Date/Fine/Digits.antt =====
-- The turns of the date loop at the start, and after digits only: nothing panics, and what is kept.
use watchmaker.Prelude.{true, ℕ, ◌≡◌, ◌≤◌, arith}
use watchmaker.Go.Text.{Bytes}
use watchmaker.DateParse.States.{
  date_start, date_digit, date_digit_st, date_digit_slash, date_digit_chinese_year,
}
use watchmaker.DateParse.Fields.{Parser}
use watchmaker.DateParse.Runes.{Tables}
use watchmaker.DateParse.Date.Fine.{
  Fine, Same, slack, floor, set-Same, set-Stays, set_month-Stays, set_year-Stays, set_day-Stays,
  set_month-Same, set_day-Same, set_year-Same,
}
use watchmaker.DateParse.Date.Digits.{
  first_part, digit_dash, digit_slash, slash_year, digit_colon, digit_period, digit_space,
  start_step, digit_step, digit_st_step, chinese_step,
}

module _ (u : Tables) (s : Bytes) (i r : ℕ) (p : Parser) where
  pub start-Fine : p.state_date ≡ date_start → 0 ≤ i → Fine s i p (start_step u s i r p)
  unfolding start_step
  start-Fine h g = ground arith

  -- A parser that is in another state, at the character behind.
  abbrev Onward : Parser → Type 0
  Onward q = (slack q.state_date ≡ 1) × (floor q.state_date ≤ 1) × Same p q

  dash-Onward : Onward (digit_dash i p)
  unfolding digit_dash
  dash-Onward = grind (arith, set-Same, set-Stays)

  slash-Onward :
      Onward (digit_slash i (record p { state_date = date_digit_slash; ambiguous_md = true }))
  unfolding digit_slash
  slash-Onward = grind (arith, set_month-Same, set_day-Same, set_month-Stays, set_day-Stays)

  slash_year-Onward : Onward (slash_year i p)
  unfolding slash_year
  slash_year-Onward = grind (arith, set_year-Same, set_year-Stays)

  colon-Onward : Onward (digit_colon i p)
  unfolding digit_colon
  colon-Onward = grind (arith, set_year-Same, set_month-Same, set_year-Stays, set_month-Stays)

  period-Onward : Onward (digit_period i p)
  unfolding digit_period
  period-Onward = grind (arith, set_year-Same, set_month-Same, set_year-Stays, set_month-Stays)

  space-Onward : Onward (digit_space i p)
  unfolding digit_space
  space-Onward = ground arith

  first_part-Fine :
      (q : Parser) → p.state_date ≡ date_digit → 1 ≤ i → Onward q → Fine s i p (first_part i q)
  first_part-Fine q h g o = ground arith

  pub digit-Fine : p.state_date ≡ date_digit → 1 ≤ i → Fine s i p (digit_step u s i r p)
  unfolding digit_step
  digit-Fine h g = grind (
    arith, first_part-Fine, dash-Onward, slash-Onward, slash_year-Onward, colon-Onward,
    period-Onward, space-Onward, set_day-Same, set_day-Stays,
  )

  pub digit_st-Fine : p.state_date ≡ date_digit_st → 1 ≤ i → Fine s i p (digit_st_step i p)
  unfolding digit_st_step
  digit_st-Fine h g = grind (
    arith, set-Same, set-Stays, set_month-Stays, set_year-Stays, set_day-Stays, set_month-Same,
    set_day-Same, set_year-Same, set_year-Stays,
  )

  pub chinese-Fine :
      p.state_date ≡ date_digit_chinese_year → 1 ≤ i → Fine s i p (chinese_step i r p)
  unfolding chinese_step
  chinese-Fine h g = ground arith
