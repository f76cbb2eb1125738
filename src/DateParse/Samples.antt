-- ===== src/DateParse/Samples.antt =====
-- Layouts that the parser detects, in texts of the package's documentation.
use watchmaker.Prelude.{◌≡◌, refl, false, [], List, ◌∷◌}
use watchmaker.Prelude.Int.{ℤ, pos}
use watchmaker.Prelude.Outcome.{Outcome, ok, fail}
use watchmaker.Go.Text.{Bytes, codes}
use watchmaker.Errors.{Error, ambiguous}
use watchmaker.DateParse.Time.{Reader}
use watchmaker.DateParse.Runes.{Tables}
use watchmaker.DateParse.Fields.{
  ParserOption, apply_options, prefer_month_first, new_parser, next_is, set, set_month, set_day,
  set_year, coalesce_month, coalesce_day, coalesce_date,
}
use watchmaker.DateParse.Time.{
  coalesce_hour, coalesce_minute, coalesce_second, zero_digits, coalesce_fraction, coalesce_time,
  set_full_month, trim_extra, with_full_month, without_skip, parse, is_day, is_month_full,
}
use watchmaker.DateParse.Runes.{
  is_digit, is_letter, is_ascii, lower_text, three_bytes, four_bytes, two_bytes, decode_rune,
}
use watchmaker.DateParse.Loop.{loop}
use watchmaker.DateParse.Whole.{
  spaces, time_part, behind_date, parse_once, prepared, is_month_error, retried, deferred, returned,
  parse_time,
}
use watchmaker.DateParse.Exported.{layout_of, parse_date_format, then_parse, parse_data_strict}
use watchmaker.DateParse.Date.Digits.{
  start_step, digit_dash, digit_slash, slash_year, digit_colon, digit_period, digit_space,
  digit_step, digit_st_step, chinese_step,
}
use watchmaker.DateParse.Date.Dashes.{
  year_dash_step, year_dash_dash_step, year_offset_step, year_alpha_step, digit_dash_step,
  digit_alpha_step, year_of_length, digit_alpha_dash_step,
}
use watchmaker.DateParse.Date.Slashes.{
  year_slash_step, year_until, slash_alpha_step, second_day, second_month, slash_step, colon_step,
  dot_step, digit_ws_step, ws_mo_year_step,
}
use watchmaker.DateParse.Date.Words.{
  alpha_space, alpha_comma, alpha_period, alpha_step, alpha_ws_step, day_until, ws_digit_step,
  yearmaybe_step, digit_more_step, digit_more_ws_step,
}
use watchmaker.DateParse.Date.Months.{
  ws_month_step, month_more_step, cut_suffix, suffix_step, ws_more_step, period_digit_step,
  weekday_step, weekday_abbrev_step,
}
use watchmaker.DateParse.Date.Turn.{date_step, date_turn}
use watchmaker.DateParse.Date.End.{
  scaled, seconds_since, at_time, digits_end, year_offset_end, last_year, last_month, last_day,
  long_month_end, date_end_at, date_end,
}
use watchmaker.DateParse.Clock.Start.{
  comma_for_period, sign_after, sign_start, zulu, half_of_day, letter_a, letter_p, third_colon,
  time_colon, start_case, time_start_step,
}
use watchmaker.DateParse.Clock.Zones.{
  offset_step, ws_step, zone_until, ws_alpha_step, zone_offset_step, zone_offset_ws_step,
  year_through, zone_year_step, ampm_step, ws_offset_step, trim_at, monotonic, ws_offset_ws_step,
  ws_offset_colon_step,
}
use watchmaker.DateParse.Clock.Periods.{
  period_step, period_offset_step, period_colon_step, period_ws_step, period_ws_offset_step,
  period_alpha_step, period_ws_colon_step, z_step,
}
use watchmaker.DateParse.Clock.Turn.{time_step, time_turn}
use watchmaker.DateParse.Clock.End.{
  zone_end, year_end, offset_end, ws_zone_end, period_zone_end, time_end_at, time_end,
}
use watchmaker.Prelude.Int.{◌-ℤ◌, ◌+ℤ◌, ◌*ℤ◌}
use watchmaker.Go.Words.{int64, uint64}
use watchmaker.Go.Text.{equal, to_lower, contains}
use watchmaker.Go.Strconv.{atoi}

-- Tables of no character, which are enough for ASCII, and a reader of anything.
abbrev pub ascii : Tables
ascii = record { digits = λ r. false; letters = λ r. false; lowered = λ s. s }

abbrev pub any_text : Reader
any_text loc layout text = ok (pos 0)

unfoldable strict_run : Bytes → Outcome Error ℤ
unfolding new_parser next_is set set_month set_day set_year coalesce_month coalesce_day
    coalesce_date coalesce_hour coalesce_minute coalesce_second zero_digits coalesce_fraction
    coalesce_time set_full_month trim_extra with_full_month without_skip parse is_day is_month_full
    is_digit is_letter is_ascii lower_text three_bytes four_bytes two_bytes decode_rune loop spaces
    time_part behind_date parse_once prepared is_month_error retried deferred returned parse_time
    layout_of parse_date_format start_step digit_dash digit_slash slash_year digit_colon
    digit_period digit_space digit_step digit_st_step chinese_step year_dash_step
    year_dash_dash_step year_offset_step year_alpha_step digit_dash_step digit_alpha_step
    year_of_length digit_alpha_dash_step year_slash_step year_until slash_alpha_step second_day
    second_month slash_step colon_step dot_step digit_ws_step ws_mo_year_step alpha_space
    alpha_comma alpha_period alpha_step alpha_ws_step day_until ws_digit_step yearmaybe_step
    digit_more_step digit_more_ws_step ws_month_step month_more_step cut_suffix suffix_step
    ws_more_step period_digit_step weekday_step weekday_abbrev_step date_step date_turn scaled
    seconds_since at_time digits_end year_offset_end last_year last_month last_day long_month_end
    date_end_at date_end comma_for_period sign_after sign_start zulu half_of_day letter_a letter_p
    third_colon time_colon start_case time_start_step offset_step ws_step zone_until ws_alpha_step
    zone_offset_step zone_offset_ws_step year_through zone_year_step ampm_step ws_offset_step
    trim_at monotonic ws_offset_ws_step ws_offset_colon_step period_step period_offset_step
    period_colon_step period_ws_step period_ws_offset_step period_alpha_step period_ws_colon_step
    z_step time_step time_turn zone_end year_end offset_end ws_zone_end period_zone_end time_end_at
    time_end ◌-ℤ◌ ◌+ℤ◌ ◌*ℤ◌ int64 uint64 equal to_lower contains atoi apply_options
    prefer_month_first then_parse parse_data_strict
strict_run s = parse_data_strict ascii any_text s []

unfoldable found : Bytes → List ParserOption → Outcome Error Bytes
unfolding new_parser next_is set set_month set_day set_year coalesce_month coalesce_day
    coalesce_date coalesce_hour coalesce_minute coalesce_second zero_digits coalesce_fraction
    coalesce_time set_full_month trim_extra with_full_month without_skip parse is_day is_month_full
    is_digit is_letter is_ascii lower_text three_bytes four_bytes two_bytes decode_rune loop spaces
    time_part behind_date parse_once prepared is_month_error retried deferred returned parse_time
    layout_of parse_date_format start_step digit_dash digit_slash slash_year digit_colon
    digit_period digit_space digit_step digit_st_step chinese_step year_dash_step
    year_dash_dash_step year_offset_step year_alpha_step digit_dash_step digit_alpha_step
    year_of_length digit_alpha_dash_step year_slash_step year_until slash_alpha_step second_day
    second_month slash_step colon_step dot_step digit_ws_step ws_mo_year_step alpha_space
    alpha_comma alpha_period alpha_step alpha_ws_step day_until ws_digit_step yearmaybe_step
    digit_more_step digit_more_ws_step ws_month_step month_more_step cut_suffix suffix_step
    ws_more_step period_digit_step weekday_step weekday_abbrev_step date_step date_turn scaled
    seconds_since at_time digits_end year_offset_end last_year last_month last_day long_month_end
    date_end_at date_end comma_for_period sign_after sign_start zulu half_of_day letter_a letter_p
    third_colon time_colon start_case time_start_step offset_step ws_step zone_until ws_alpha_step
    zone_offset_step zone_offset_ws_step year_through zone_year_step ampm_step ws_offset_step
    trim_at monotonic ws_offset_ws_step ws_offset_colon_step period_step period_offset_step
    period_colon_step period_ws_step period_ws_offset_step period_alpha_step period_ws_colon_step
    z_step time_step time_turn zone_end year_end offset_end ws_zone_end period_zone_end time_end_at
    time_end ◌-ℤ◌ ◌+ℤ◌ ◌*ℤ◌ int64 uint64 equal to_lower contains atoi apply_options
    prefer_month_first
found s opts = parse_date_format ascii any_text s opts

with_fraction : found (codes "2014-04-26 17:24:37.123") [] ≡ ok (codes "2006-01-02 15:04:05.000")
unfolding found
with_fraction = refl

with_pm : found (codes "May 8, 2009 5:57:51 PM") [] ≡ ok (codes "Jan 2, 2006 3:04:05 PM")
unfolding found
with_pm = refl

month_day_year : found (codes "oct 7, 1970") [] ≡ ok (codes "Jan 2, 2006")
unfolding found
month_day_year = refl

month_with_period : found (codes "oct. 7, 1970") [] ≡ ok (codes "Jan. 2, 2006")
unfolding found
month_with_period = refl

slashes_and_time : found (codes "03/31/2014 22:05") [] ≡ ok (codes "01/02/2006 15:04")
unfolding found
slashes_and_time = refl

year_first : found (codes "2014/3/31") [] ≡ ok (codes "2006/1/02")
unfolding found
year_first = refl

weekday_and_zone :
    found (codes "Mon, 02 Jan 2006 15:04:05 MST") [] ≡ ok (codes "Mon, 02 Jan 2006 15:04:05 MST")
unfolding found
weekday_and_zone = refl

offset_with_colon :
    found (codes "2009-08-12T22:15:09-07:00") [] ≡ ok (codes "2006-01-02T15:04:05-07:00")
unfolding found
offset_with_colon = refl

day_month_year : found (codes "12 Feb 2006, 19:17") [] ≡ ok (codes "02 Jan 2006, 15:04")
unfolding found
day_month_year = refl

weekday_is_cut_off :
    found (codes "Tue 05 May 2020, 05:05:05") [] ≡ ok (codes "02 Jan 2006, 15:04:05")
unfolding found
weekday_is_cut_off = refl

suffix_is_cut_out : found (codes "April 8th, 2009") [] ≡ ok (codes "January 2, 2006")
unfolding found
suffix_is_cut_out = refl

digits_only : found (codes "20140722105203") [] ≡ ok (codes "20060102150405")
unfolding found
digits_only = refl

comma_becomes_period :
    found (codes "2014-05-11 08:20:13,787") [] ≡ ok (codes "2006-01-02 15:04:05.000")
unfolding found
comma_becomes_period = refl

time_before_year : found (codes "May 8 17:57:51 2009") [] ≡ ok (codes "Jan 2 15:04:05 2006")
unfolding found
time_before_year = refl

-- A day of the week in front of the date: the preference for the day first is lost.
preference_is_lost :
    found (codes "Tue 05/06/2020") (prefer_month_first false ∷ []) ≡ ok (codes "01/02/2006")
unfolding found
preference_is_lost = refl

-- Only the text of a date that is not ambiguous is read.
pub dashed_strictly : parse_data_strict ascii any_text (codes "2014-04-26") [] ≡ ok (pos 0)
unfolding strict_run
dashed_strictly = refl

slashed_strictly : strict_run (codes "03/31/2014") ≡ fail ambiguous
unfolding strict_run
slashed_strictly = refl
