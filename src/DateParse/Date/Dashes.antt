-- ===== src/DateParse/Date/Dashes.antt =====
-- date_parse.go: the turns of the date loop in dates with dashes.
use watchmaker.Prelude.{ℕ, ◌+◌, true, ◌||◌, ◌==◌, if◌then◌else◌}
use watchmaker.Prelude.Int.{ℤ, pos, ◌+ℤ◌}
use watchmaker.Go.Text.{Bytes, codes}
use watchmaker.Go.Words.{wrap64}
use watchmaker.Errors.{unknown_format}
use watchmaker.DateParse.States.{
  date_year_dash_alpha_dash, date_year_dash_dash, date_year_dash_dash_ws, date_year_dash_dash_t,
  date_year_dash_dash_offset, date_digit_dash_alpha, date_digit_dash_alpha_dash, time_start,
}
use watchmaker.DateParse.Fields.{Parser, set, set_month, set_day, equals}
use watchmaker.DateParse.Runes.{Tables, is_letter}
use watchmaker.DateParse.Steps.{Step, next, leave, gives, refuse, minus}

-- `dateYearDash`.
unfoldable pub year_dash_step : Tables → ℕ → ℕ → Parser → Step
year_dash_step u i r p =
    if r == b'-'
    then next (pos i) (
        set_month (record p {
          molen = minus i p.moi;
          dayi = pos (i + 1);
          state_date = date_year_dash_dash;
        }))
    else if is_letter u r
    then next (pos i) (record p { state_date = date_year_dash_alpha_dash })
    else next (pos i) p

-- `dateYearDashDash`.
unfoldable pub year_dash_dash_step : ℕ → ℕ → Parser → Step
year_dash_dash_step i r p =
    if r == b'+' || r == b'-'
    then next (pos i) (
        set_day (record p {
          offseti = pos i;
          daylen = minus i p.dayi;
          state_date = date_year_dash_dash_offset;
        }))
    else if r == b' '
    then leave (pos i) (
        set_day (record p {
          daylen = minus i p.dayi;
          state_date = date_year_dash_dash_ws;
          state_time = time_start;
        }))
    else if r == b'T'
    then leave (pos i) (
        set_day (record p {
          daylen = minus i p.dayi;
          state_date = date_year_dash_dash_t;
          state_time = time_start;
        }))
    else next (pos i) p

-- `dateYearDashDashOffset`.
unfoldable pub year_offset_step : ℕ → ℕ → Parser → Step
year_offset_step i r p =
    if r == b':' then next (pos i) (set p.offseti (codes "-07:00") p) else next (pos i) p

-- `dateYearDashAlphaDash`.
unfoldable pub year_alpha_step : ℕ → ℕ → Parser → Step
year_alpha_step i r p =
    if r == b'-'
    then (let q = set p.moi (codes "Jan") (record p { molen = minus i p.moi }) in
        next (pos i) (record q { dayi = pos (i + 1) }))
    else next (pos i) p

-- `dateDigitDash`.
unfoldable pub digit_dash_step : Tables → Bytes → ℕ → ℕ → Parser → Step
digit_dash_step u datestr i r p =
    if is_letter u r
    then next (pos i) (record p { state_date = date_digit_dash_alpha; moi = pos i })
    else gives (refuse (unknown_format datestr))

-- `dateDigitDashAlpha`.
unfoldable pub digit_alpha_step : ℕ → ℕ → Parser → Step
digit_alpha_step i r p =
    if r == b'-'
    then (let q = set p.moi (codes "Jan") (record p { molen = minus i p.moi }) in
        next (pos i) (record q { yeari = pos (i + 1); state_date = date_digit_dash_alpha_dash }))
    else next (pos i) p

-- The year behind a day and a month, of 4 or 2 digits: here, and after the loops.
unfoldable pub year_of_length : ℤ → Parser → Parser
year_of_length len p =
    if equals len 4
    then (let q = set p.yeari (codes "2006") (record p { yearlen = pos 4 }) in
        set_day (record q { dayi = pos 0; daylen = q.part1_len }))
    else if equals len 2
    then (let q = set p.yeari (codes "06") (record p { ambiguous_md = true; yearlen = pos 2 }) in
        set_day (record q { dayi = pos 0; daylen = q.part1_len }))
    else p

-- `p.moi + p.molen + 1`.
abbrev pub after_month : Parser → ℤ
after_month p = wrap64 (p.moi +ℤ p.molen +ℤ pos 1)

-- `dateDigitDashAlphaDash`.
unfoldable pub digit_alpha_dash_step : ℕ → ℕ → Parser → Step
unfolding year_of_length
digit_alpha_dash_step i r p =
    if r == b' '
    then (let q = year_of_length (minus i (after_month p)) p in
        leave (pos i) (record q { state_time = time_start }))
    else next (pos i) p
