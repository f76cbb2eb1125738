-- ===== src/DateParse/Date/End.antt =====
-- date_parse.go: what `parseTime` returns for the shape of the date that it has found.
use watchmaker.Prelude.{ℕ, [], ◌∷◌, ltb, ◌==◌, if◌then◌else◌, length, Option, some, none, ◌++◌}
use watchmaker.Prelude.Int.{ℤ, pos, ◌-ℤ◌, ◌*ℤ◌}
use watchmaker.Go.Text.{Bytes, codes}
use watchmaker.Go.Words.{wrap64}
use watchmaker.Go.Strconv.{atoi}
use watchmaker.Errors.{unknown_format, too_short}
use watchmaker.DateParse.States.{
  date_digit, date_digit_st, date_year_dash, date_year_dash_alpha_dash, date_year_dash_dash,
  date_year_dash_dash_ws, date_year_dash_dash_t, date_year_dash_dash_offset,
  date_digit_dash_alpha_dash, date_digit_dot, date_digit_dot_dot, date_digit_slash,
  date_digit_year_slash, date_digit_slash_alpha, date_digit_colon, date_digit_chinese_year,
  date_digit_chinese_year_ws, date_digit_ws_mo_year, date_digit_ws_molong, date_alpha_ws_digit,
  date_alpha_ws_digit_more_ws, date_alpha_ws_digit_more_ws_year, date_alpha_ws_month,
  date_alpha_ws_digit_yearmaybe, date_alpha_ws_month_more, date_alpha_ws_alpha, date_weekday_comma,
  date_weekday_abbrev_comma, DateState,
}
use watchmaker.DateParse.Fields.{Parser, set, set_month, set_day, set_year, equals}
use watchmaker.DateParse.Steps.{Found, refuse, accept, minus}
use watchmaker.DateParse.Date.Dashes.{year_of_length, after_month}

-- The layouts with Chinese characters, in UTF-8.
abbrev chinese_date : Bytes
chinese_date =
    codes "2006"
    ++ (0xe5 ∷ 0xb9 ∷ 0xb4 ∷ codes "01")
    ++ (0xe6 ∷ 0x9c ∷ 0x88 ∷ codes "02")
    ++ (0xe6 ∷ 0x97 ∷ 0xa5 ∷ [])

-- `dateDigit`: a text of digits is a number of seconds or of parts of a second since 1970, told by
-- its length. `none` is a text that is no number, for which the time stays zero.
unfoldable pub scaled : ℕ → Option ℤ → Option ℤ
scaled k none = none
scaled k (some n) = some (wrap64 (n *ℤ pos k))

unfoldable pub seconds_since : Option ℤ → Option ℤ
seconds_since none = none
seconds_since (some n) = some (n *ℤ pos 1000000000)

unfoldable pub at_time : Bytes → Option ℤ → Parser → Found
at_time datestr (some t) p = accept (record p { t = some t })
at_time datestr none p = refuse (unknown_format datestr)

unfoldable pub digits_end : Bytes → Parser → Found
unfolding scaled seconds_since at_time
digits_end datestr p =
    let n = length datestr in
    if n == 19
    then at_time datestr (atoi datestr) p
    else if n == 16
    then at_time datestr (scaled 1000 (atoi datestr)) p
    else if n == 14
    then accept (record p { format = codes "20060102150405" })
    else if n == 13
    then at_time datestr (scaled 1000000 (atoi datestr)) p
    else if n == 10
    then at_time datestr (seconds_since (atoi datestr)) p
    else if n == 8
    then accept (record p { format = codes "20060102" })
    else if n == 4
    then accept (record p { format = codes "2006" })
    else if ltb n 4
    then refuse (too_short datestr)
    else refuse (unknown_format datestr)

-- `dateYearDashDashOffset`.
unfoldable pub year_offset_end : Parser → Parser
year_offset_end p =
    let left = minus (length p.datestr) p.offseti in
    if equals left 5
    then set p.offseti (codes "-0700") p
    else if equals left 6
    then set p.offseti (codes "-07:00") p
    else p

-- The year, the month or the day that ends with the date.
unfoldable pub last_year : ℤ → Parser → Parser
last_year i p = set_year (record p { yearlen = wrap64 (i -ℤ p.yeari) })

unfoldable pub last_month : ℤ → Parser → Parser
last_month i p = set_month (record p { molen = wrap64 (i -ℤ p.moi) })

unfoldable pub last_day : ℤ → Parser → Parser
last_day i p = set_day (record p { daylen = wrap64 (i -ℤ p.dayi) })

-- `dateDigitWsMolong`.
unfoldable pub long_month_end : Parser → Parser
long_month_end p =
    if equals p.daylen 2
    then record p { format = codes "02 January 2006" }
    else record p { format = codes "2 January 2006" }

unfoldable pub date_end_at : DateState → Bytes → ℤ → Parser → Found
unfolding digits_end year_offset_end last_year last_month last_day long_month_end year_of_length
date_end_at date_digit s i p = digits_end s p
date_end_at date_digit_st s i p = accept p
date_end_at date_year_dash s i p = accept p
date_end_at date_year_dash_dash s i p = accept p
date_end_at date_year_dash_dash_offset s i p = accept (year_offset_end p)
date_end_at date_year_dash_alpha_dash s i p = accept (last_day i p)
date_end_at date_year_dash_dash_ws s i p = accept p
date_end_at date_year_dash_dash_t s i p = accept p
date_end_at date_digit_dash_alpha_dash s i p =
    accept (year_of_length (minus (length s) (after_month p)) p)
date_end_at date_digit_dot s i p = accept (last_month i p)
date_end_at date_digit_dot_dot s i p = accept p
date_end_at date_digit_ws_mo_year s i p = accept p
date_end_at date_digit_ws_molong s i p = accept (long_month_end p)
date_end_at date_alpha_ws_month s i p = accept (last_year i p)
date_end_at date_alpha_ws_month_more s i p = accept p
date_end_at date_alpha_ws_digit_more_ws s i p = accept (last_year i p)
date_end_at date_alpha_ws_digit_more_ws_year s i p = accept p
date_end_at date_alpha_ws_alpha s i p = accept p
date_end_at date_alpha_ws_digit s i p = accept p
date_end_at date_alpha_ws_digit_yearmaybe s i p = accept p
date_end_at date_digit_slash s i p = accept p
date_end_at date_digit_slash_alpha s i p = accept p
date_end_at date_digit_year_slash s i p = accept p
date_end_at date_digit_colon s i p = accept p
date_end_at date_digit_chinese_year s i p = accept (record p { format = chinese_date })
date_end_at date_digit_chinese_year_ws s i p =
    accept (record p { format = chinese_date ++ codes " 15:04:05" })
date_end_at date_weekday_comma s i p = accept p
date_end_at date_weekday_abbrev_comma s i p = accept p
date_end_at _ s i p = refuse (unknown_format s)

unfoldable pub date_end : Bytes → ℤ → Parser → Found
unfolding date_end_at
date_end s i p = date_end_at p.state_date s i p
