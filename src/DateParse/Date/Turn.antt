-- ===== src/DateParse/Date/Turn.antt =====
-- date_parse.go: one turn of the date loop. The index is moved to the last byte of the character.
use watchmaker.Prelude.{ℕ, ◌+◌, ◌-◌, drop}
use watchmaker.Prelude.Int.{pos}
use watchmaker.Go.Text.{Bytes}
use watchmaker.DateParse.States.{
  date_start, date_digit, date_digit_st, date_year_dash, date_year_dash_alpha_dash,
  date_year_dash_dash, date_year_dash_dash_t, date_year_dash_dash_offset, date_digit_dash,
  date_digit_dash_alpha, date_digit_dash_alpha_dash, date_digit_dot, date_digit_dot_dot,
  date_digit_slash, date_digit_year_slash, date_digit_slash_alpha, date_digit_colon,
  date_digit_chinese_year, date_digit_ws, date_digit_ws_mo_year, date_digit_ws_molong, date_alpha,
  date_alpha_ws, date_alpha_ws_digit, date_alpha_ws_digit_more, date_alpha_ws_digit_more_ws,
  date_alpha_ws_month, date_alpha_ws_digit_yearmaybe, date_alpha_ws_month_more,
  date_alpha_ws_month_suffix, date_alpha_ws_more, date_alpha_period_ws_digit, date_weekday_comma,
  date_weekday_abbrev_comma, DateState,
}
use watchmaker.DateParse.Fields.{Parser}
use watchmaker.DateParse.Runes.{Tables, decode_rune}
use watchmaker.DateParse.Steps.{Step, next, leave}
use watchmaker.DateParse.Loop.{Turn}
use watchmaker.DateParse.Date.Digits.{start_step, digit_step, digit_st_step, chinese_step}
use watchmaker.DateParse.Date.Dashes.{
  year_dash_step, year_dash_dash_step, year_offset_step, year_alpha_step, digit_dash_step,
  digit_alpha_step, digit_alpha_dash_step,
}
use watchmaker.DateParse.Date.Slashes.{
  year_slash_step, slash_alpha_step, slash_step, colon_step, dot_step, digit_ws_step,
  ws_mo_year_step,
}
use watchmaker.DateParse.Date.Words.{
  alpha_step, alpha_ws_step, ws_digit_step, yearmaybe_step, digit_more_step, digit_more_ws_step,
}
use watchmaker.DateParse.Date.Months.{
  ws_month_step, month_more_step, suffix_step, ws_more_step, period_digit_step, weekday_step,
  weekday_abbrev_step,
}

-- `switch p.stateDate`.
unfoldable pub date_step : DateState → Tables → Bytes → ℕ → ℕ → Parser → Step
date_step date_start u s i r p = start_step u s i r p
date_step date_digit u s i r p = digit_step u s i r p
date_step date_digit_st u s i r p = digit_st_step i p
date_step date_year_dash u s i r p = year_dash_step u i r p
date_step date_year_dash_dash u s i r p = year_dash_dash_step i r p
date_step date_year_dash_dash_t u s i r p = next (pos i) p
date_step date_year_dash_dash_offset u s i r p = year_offset_step i r p
date_step date_year_dash_alpha_dash u s i r p = year_alpha_step i r p
date_step date_digit_dash u s i r p = digit_dash_step u s i r p
date_step date_digit_dash_alpha u s i r p = digit_alpha_step i r p
date_step date_digit_dash_alpha_dash u s i r p = digit_alpha_dash_step i r p
date_step date_digit_year_slash u s i r p = year_slash_step i r p
date_step date_digit_slash_alpha u s i r p = slash_alpha_step i r p
date_step date_digit_slash u s i r p = slash_step i r p
date_step date_digit_colon u s i r p = colon_step i r p
date_step date_digit_ws u s i r p = digit_ws_step i r p
date_step date_digit_ws_mo_year u s i r p = ws_mo_year_step i r p
date_step date_digit_ws_molong u s i r p = next (pos i) p
date_step date_digit_chinese_year u s i r p = chinese_step i r p
date_step date_digit_dot u s i r p = dot_step i r p
date_step date_digit_dot_dot u s i r p = next (pos i) p
date_step date_alpha u s i r p = alpha_step u s i r p
date_step date_alpha_ws u s i r p = alpha_ws_step u i r p
date_step date_alpha_ws_digit u s i r p = ws_digit_step u i r p
date_step date_alpha_ws_digit_yearmaybe u s i r p = yearmaybe_step i r p
date_step date_alpha_ws_digit_more u s i r p = digit_more_step i r p
date_step date_alpha_ws_digit_more_ws u s i r p = digit_more_ws_step i r p
date_step date_alpha_ws_month u s i r p = ws_month_step i r p
date_step date_alpha_ws_month_more u s i r p = month_more_step i r p
date_step date_alpha_ws_month_suffix u s i r p = suffix_step s i r p
date_step date_alpha_ws_more u s i r p = ws_more_step u i r p
date_step date_alpha_period_ws_digit u s i r p = period_digit_step u s i r p
date_step date_weekday_comma u s i r p = weekday_step i r p
date_step date_weekday_abbrev_comma u s i r p = weekday_abbrev_step i r p
date_step _ u s i r p = leave (pos i) p

unfoldable pub date_turn : Tables → Turn
unfolding date_step
date_turn u s i p =
    let read = decode_rune (drop i s) in date_step p.state_date u s (i + (read.1 - 1)) read.0 p
