-- ===== src/DateParse/Date/Months.antt =====
-- date_parse.go: the turns of the date loop behind the full name of a month, and behind a day of the
-- week.
use watchmaker.Prelude.{
  ℕ, ◌+◌, true, ◌&&◌, ◌||◌, ltb, ◌==◌, if◌then◌else◌, length, take, drop, ◌++◌,
}
use watchmaker.Prelude.Int.{pos, sub_ℕ}
use watchmaker.Go.Text.{Bytes, codes}
use watchmaker.Errors.{unknown_format}
use watchmaker.DateParse.States.{
  date_alpha_ws_digit, date_alpha_ws_month_more, date_alpha_ws_month_suffix, time_start,
}
use watchmaker.DateParse.Fields.{Parser, set, set_day, set_year, equals, is_above_zero, next_is}
use watchmaker.DateParse.Runes.{Tables, is_digit, is_letter, one_of}
use watchmaker.DateParse.Steps.{Step, next, leave, gives, again, with_error, minus}
use watchmaker.DateParse.Date.Words.{day_until}

-- `dateAlphaWsMonth`: the first letter of a suffix is read again.
unfoldable pub ws_month_step : ℕ → ℕ → Parser → Step
unfolding day_until
ws_month_step i r p =
    if r == b' ' || r == b','
    then next (pos i) (if equals p.daylen 0 then day_until i p else p)
    else if one_of r (codes "sSrRtTnN")
    then next (sub_ℕ i 1) (record p { state_date = date_alpha_ws_month_suffix })
    else if is_above_zero p.daylen && equals p.yeari 0
    then next (pos i) (record p { yeari = pos i })
    else next (pos i) p

-- `dateAlphaWsMonthMore`.
unfoldable pub month_more_step : ℕ → ℕ → Parser → Step
month_more_step i r p =
    let q = set_year (record p { yearlen = minus i p.yeari }) in
    if r == b','
    then leave (pos (i + 1)) (record q { state_time = time_start })
    else if r == b' '
    then leave (pos i) (record q { state_time = time_start })
    else next (pos i) p

-- `dateAlphaWsMonthSuffix`: a suffix of two letters is cut out.
unfoldable pub cut_suffix : Bytes → ℕ → ℕ → ℕ → Parser → Step
cut_suffix datestr i small big p =
    if (next_is i small p || next_is i big p) && ltb (i + 2) (length datestr)
    then again datestr (take i p.datestr ++ drop (i + 2) p.datestr) true
    else next (pos i) p

unfoldable pub suffix_step : Bytes → ℕ → ℕ → Parser → Step
unfolding cut_suffix
suffix_step datestr i r p =
    if r == b't' || r == b'T'
    then cut_suffix datestr i b'h' b'H' p
    else if r == b'n' || r == b'N'
    then cut_suffix datestr i b'd' b'D' p
    else if r == b's' || r == b'S'
    then cut_suffix datestr i b't' b'T' p
    else if r == b'r' || r == b'R'
    then cut_suffix datestr i b'd' b'D' p
    else next (pos i) p

-- `dateAlphaWsMore`.
unfoldable pub ws_more_step : Tables → ℕ → ℕ → Parser → Step
unfolding day_until
ws_more_step u i r p =
    let q = day_until i p in
    if r == b','
    then (if next_is i b' ' p
        then next (pos (i + 1))
            (record q { yeari = pos (i + 2); state_date = date_alpha_ws_month_more })
        else next (pos i) p)
    else if r == b' '
    then next (pos i) (record q { yeari = pos (i + 1); state_date = date_alpha_ws_month_more })
    else if is_digit u r
    then next (pos i) p
    else if is_letter u r
    then next (sub_ℕ i 1) (record q { state_date = date_alpha_ws_month_suffix })
    else next (pos i) p

-- `dateAlphaPeriodWsDigit`.
unfoldable pub period_digit_step : Tables → Bytes → ℕ → ℕ → Parser → Step
period_digit_step u datestr i r p =
    if r == b' '
    then next (pos i) p
    else if is_digit u r
    then next (pos i) (record p { state_date = date_alpha_ws_digit; dayi = pos i })
    else gives (with_error p (unknown_format datestr))

-- `dateWeekdayComma`.
unfoldable pub weekday_step : ℕ → ℕ → Parser → Step
weekday_step i r p =
    let q = if equals p.dayi 0 then record p { dayi = pos i } else p in
    if r == b' ' || r == b'-'
    then (if equals q.moi 0
        then next (pos i) (set_day (record q { moi = pos (i + 1); daylen = minus i q.dayi }))
        else if equals q.yeari 0
        then next (pos i)
            (set q.moi (codes "Jan") (record q { yeari = pos (i + 1); molen = minus i q.moi }))
        else leave (pos i) (record q { state_time = time_start }))
    else next (pos i) q

-- `dateWeekdayAbbrevComma`.
unfoldable pub weekday_abbrev_step : ℕ → ℕ → Parser → Step
unfolding day_until
weekday_abbrev_step i r p =
    if r == b' ' || r == b'-'
    then (if equals p.dayi 0
        then next (pos i) (record p { dayi = pos (i + 1) })
        else if equals p.moi 0
        then (let q = day_until i p in next (pos i) (record q { moi = pos (i + 1) }))
        else if equals p.yeari 0
        then (let q = set p.moi (codes "Jan") (record p { molen = minus i p.moi }) in
            next (pos i) (record q { yeari = pos (i + 1) }))
        else (let q = set_year (record p { yearlen = minus i p.yeari }) in
            leave (pos i) (record q { state_time = time_start })))
    else next (pos i) p
