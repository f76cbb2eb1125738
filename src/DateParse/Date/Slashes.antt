-- ===== src/DateParse/Date/Slashes.antt =====
-- date_parse.go: the turns of the date loop in dates with slashes, colons and periods.
use watchmaker.Prelude.{ℕ, ◌+◌, ◌||◌, ◌==◌, if◌then◌else◌}
use watchmaker.Prelude.Int.{pos, ◌+ℤ◌, ltb_ℤ}
use watchmaker.Go.Text.{codes}
use watchmaker.Go.Words.{wrap64}
use watchmaker.DateParse.States.{
  date_digit_dot_dot, date_digit_ws_mo_year, date_digit_ws_molong, time_start,
}
use watchmaker.DateParse.Fields.{Parser, set, set_month, set_day, set_year, equals, is_above_zero}
use watchmaker.DateParse.Steps.{Step, next, leave, minus}

-- `dateDigitYearSlash`.
unfoldable pub year_slash_step : ℕ → ℕ → Parser → Step
year_slash_step i r p =
    if r == b' ' || r == b':'
    then (let q = record p { state_time = time_start } in
        leave (pos i)
          (if equals q.daylen 0 then set_day (record q { daylen = minus i q.dayi }) else q))
    else if r == b'/'
    then next (pos i) (
        if equals p.molen 0
        then (let q = set_month (record p { molen = minus i p.moi }) in
            record q { dayi = pos (i + 1) })
        else p)
    else next (pos i) p

-- The year that ends here.
unfoldable pub year_until : ℕ → Parser → Parser
year_until i p = set_year (record p { yearlen = minus i p.yeari })

-- `dateDigitSlashAlpha`.
unfoldable pub slash_alpha_step : ℕ → ℕ → Parser → Step
unfolding year_until
slash_alpha_step i r p =
    if r == b'/'
    then next (pos i) (
        if equals p.molen 0
        then (let q = set p.moi (codes "Jan") p in record q { yeari = pos (i + 1) })
        else p)
    else if r == b' ' || r == b':'
    then (let q = record p { state_time = time_start } in
        leave (pos i) (if equals q.yearlen 0 then year_until i q else q))
    else next (pos i) p

-- The second separator of a day and a month, in the order that is preferred.
unfoldable pub second_day : ℕ → Parser → Parser
second_day i p =
    if equals p.daylen 0
    then (let q = set_day (record p { daylen = minus i p.dayi }) in
        record q { yeari = pos (i + 1) })
    else p

unfoldable pub second_month : ℕ → Parser → Parser
second_month i p =
    if equals p.molen 0
    then (let q = set_month (record p { molen = minus i p.moi }) in
        record q { yeari = pos (i + 1) })
    else p

-- `dateDigitSlash`.
unfoldable pub slash_step : ℕ → ℕ → Parser → Step
unfolding year_until second_day second_month
slash_step i r p =
    if r == b'/'
    then next (pos i) (if p.prefer_month_first then second_day i p else second_month i p)
    else if r == b' '
    then (let q = record p { state_time = time_start } in
        leave (pos i) (if equals q.yearlen 0 then year_until i q else q))
    else next (pos i) p

-- `dateDigitColon`.
unfoldable pub colon_step : ℕ → ℕ → Parser → Step
unfolding year_until second_day
colon_step i r p =
    if r == b' '
    then (let q = record p { state_time = time_start } in
        leave (pos i) (
          if equals q.yearlen 0
          then year_until i q
          else if equals q.daylen 0
          then set_day (record q { daylen = minus i q.dayi })
          else q))
    else if r == b':'
    then next (pos i) (
        if is_above_zero p.yearlen
        then (if equals p.molen 0
            then (let q = set_month (record p { molen = minus i p.moi }) in
                record q { dayi = pos (i + 1) })
            else p)
        else if p.prefer_month_first
        then second_day i p
        else p)
    else next (pos i) p

-- `dateDigitDot`.
unfoldable pub dot_step : ℕ → ℕ → Parser → Step
dot_step i r p =
    if r == b'.'
    then (if equals p.moi 0
        then (let q = set_day (record p { daylen = minus i p.dayi; yeari = pos (i + 1) }) in
            next (pos i) (record q { state_date = date_digit_dot_dot }))
        else (let q = set_month (record p { molen = minus i p.moi; dayi = pos (i + 1) }) in
            next (pos i) (record q { state_date = date_digit_dot_dot })))
    else next (pos i) p

-- `dateDigitWs`: a month that is longer than three letters is written in full.
unfoldable pub digit_ws_step : ℕ → ℕ → Parser → Step
digit_ws_step i r p =
    if r == b' '
    then (let q = set_day (record p { yeari = pos (i + 1); dayi = pos 0; daylen = p.part1_len }) in
        let t = record q { state_time = time_start } in
        if ltb_ℤ (wrap64 (t.daylen +ℤ pos 4)) (pos i)
        then next (pos i) (record t { state_date = date_digit_ws_molong })
        else (let moi = wrap64 (t.daylen +ℤ pos 1) in
            let m = set moi (codes "Jan") (record t { moi = moi; molen = minus i moi }) in
            next (pos i) (record m { state_date = date_digit_ws_mo_year })))
    else next (pos i) p

-- `dateDigitWsMoYear`.
unfoldable pub ws_mo_year_step : ℕ → ℕ → Parser → Step
unfolding year_until
ws_mo_year_step i r p =
    if r == b','
    then leave (pos (i + 1)) (year_until i p)
    else if r == b' '
    then leave (pos i) (year_until i p)
    else next (pos i) p
