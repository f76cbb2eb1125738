-- ===== src/DateParse/Date/Words.antt =====
-- date_parse.go: the turns of the date loop in dates that start with a word.
use watchmaker.Prelude.{
  ℕ, ◌+◌, ◌-◌, true, false, ◌||◌, ltb, ◌==◌, if◌then◌else◌, length, take, drop, ◌++◌,
}
use watchmaker.Prelude.Int.{pos, sub_ℕ}
use watchmaker.Go.Text.{Bytes, codes}
use watchmaker.Errors.{unknown_format}
use watchmaker.DateParse.States.{
  date_alpha_ws, date_alpha_ws_digit, date_alpha_ws_digit_more, date_alpha_ws_digit_more_ws,
  date_alpha_ws_digit_more_ws_year, date_alpha_ws_month, date_alpha_ws_digit_yearmaybe,
  date_alpha_ws_month_suffix, date_alpha_ws_more, date_alpha_ws_alpha, date_alpha_period_ws_digit,
  date_weekday_comma, date_weekday_abbrev_comma, time_start,
}
use watchmaker.DateParse.Fields.{Parser, set, set_day, set_year}
use watchmaker.DateParse.Time.{is_day, is_month_full}
use watchmaker.DateParse.Runes.{Tables, is_digit, is_letter, lower_text}
use watchmaker.DateParse.Steps.{Step, next, leave, gives, again, refuse, minus}

-- The cases of `dateAlpha`: a space, a comma and a period. A day in front of the date is cut off, and
-- the period behind a month of four letters is cut out with the last letter.
unfoldable pub alpha_space : Tables → Bytes → ℕ → Parser → Step
alpha_space u datestr i p =
    let word = lower_text u (take i datestr) in
    if ltb 3 i
    then (if is_month_full word
        then next (pos i) (record p {
          full_month = word;
          state_date =
              if ltb (length datestr - i) 10 then date_alpha_ws_month else date_alpha_ws_more;
          dayi = pos (i + 1);
        })
        else next (pos i) p)
    else if is_day word
    then again datestr (drop (i + 1) datestr) false
    else next (pos i) (record p { state_date = date_alpha_ws })

unfoldable pub alpha_comma : ℕ → Parser → Step
alpha_comma i p =
    if i == 3
    then next (pos i)
        (set (pos 0) (codes "Mon") (record p { state_date = date_weekday_abbrev_comma }))
    else next (pos (i + 1)) (record p { state_date = date_weekday_comma; skip = pos (i + 2) })

unfoldable pub alpha_period : Bytes → ℕ → Parser → Step
alpha_period datestr i p =
    let q = record p { state_date = date_alpha_period_ws_digit } in
    if i == 3
    then next (pos i) (set (pos 0) (codes "Jan") (record q { molen = pos i }))
    else if i == 4
    then (let shorter = take (i - 1) datestr ++ drop i datestr in again shorter shorter true)
    else gives (refuse (unknown_format datestr))

unfoldable pub alpha_step : Tables → Bytes → ℕ → ℕ → Parser → Step
unfolding alpha_space alpha_comma alpha_period
alpha_step u datestr i r p =
    if r == b' '
    then alpha_space u datestr i p
    else if r == b','
    then alpha_comma i p
    else if r == b'.'
    then alpha_period datestr i p
    else next (pos i) p

-- `dateAlphaWs`.
unfoldable pub alpha_ws_step : Tables → ℕ → ℕ → Parser → Step
alpha_ws_step u i r p =
    if is_letter u r
    then (let q = set (pos 0) (codes "Mon") p in
        next (pos i) (set (pos i) (codes "Jan") (record q { state_date = date_alpha_ws_alpha })))
    else if is_digit u r
    then (let q = set (pos 0) (codes "Jan") p in
        next (pos i) (record q { state_date = date_alpha_ws_digit; dayi = pos i }))
    else next (pos i) p

-- The day that ends here.
unfoldable pub day_until : ℕ → Parser → Parser
day_until i p = set_day (record p { daylen = minus i p.dayi })

-- `dateAlphaWsDigit`: the letter behind the day is read again.
unfoldable pub ws_digit_step : Tables → ℕ → ℕ → Parser → Step
unfolding day_until
ws_digit_step u i r p =
    if r == b','
    then (let q = day_until i p in
        next (pos i) (record q { state_date = date_alpha_ws_digit_more }))
    else if r == b' '
    then (let q = day_until i p in
        next (pos i) (record q {
          yeari = pos (i + 1);
          state_date = date_alpha_ws_digit_yearmaybe;
          state_time = time_start;
        }))
    else if is_letter u r
    then next (sub_ℕ i 1) (record p { state_date = date_alpha_ws_month_suffix })
    else next (pos i) p

-- `dateAlphaWsDigitYearmaybe`.
unfoldable pub yearmaybe_step : ℕ → ℕ → Parser → Step
yearmaybe_step i r p =
    if r == b':'
    then leave (sub_ℕ i 3) (record p { state_date = date_alpha_ws_digit; yeari = pos 0 })
    else if r == b' '
    then leave (pos i) (set_year (record p { yearlen = minus i p.yeari }))
    else next (pos i) p

-- `dateAlphaWsDigitMore`.
unfoldable pub digit_more_step : ℕ → ℕ → Parser → Step
digit_more_step i r p =
    if r == b' '
    then next (pos i) (record p { yeari = pos (i + 1); state_date = date_alpha_ws_digit_more_ws })
    else next (pos i) p

-- `dateAlphaWsDigitMoreWs`.
unfoldable pub digit_more_ws_step : ℕ → ℕ → Parser → Step
digit_more_ws_step i r p =
    if r == b'\''
    then next (pos i) (record p { yeari = pos (i + 1) })
    else if r == b' ' || r == b','
    then (let q =
          set_year (record p {
            state_date = date_alpha_ws_digit_more_ws_year;
            yearlen = minus i p.yeari;
          }) in
        leave (pos i) (record q { state_time = time_start }))
    else next (pos i) p
