-- ===== src/DateParse/Date/Digits.antt =====
-- date_parse.go: the turns of the date loop at the start, and after digits only.
use watchmaker.Prelude.{ℕ, ◌+◌, true, ◌&&◌, ◌||◌, ltb, ◌==◌, if◌then◌else◌, length, get_or}
use watchmaker.Prelude.Int.{pos, sub_ℕ}
use watchmaker.Go.Text.{Bytes, codes}
use watchmaker.Errors.{unknown_format}
use watchmaker.DateParse.States.{
  date_digit, date_digit_st, date_year_dash, date_digit_dash, date_digit_dot, date_digit_slash,
  date_digit_year_slash, date_digit_slash_alpha, date_digit_colon, date_digit_chinese_year,
  date_digit_chinese_year_ws, date_digit_ws, date_alpha, time_start,
}
use watchmaker.DateParse.Fields.{Parser, set, set_month, set_day, set_year, equals}
use watchmaker.DateParse.Runes.{Tables, is_digit, is_letter}
use watchmaker.DateParse.Steps.{Step, next, leave, gives, refuse}

unfoldable pub start_step : Tables → Bytes → ℕ → ℕ → Parser → Step
start_step u datestr i r p =
    if is_digit u r
    then next (pos i) (record p { state_date = date_digit })
    else if is_letter u r
    then next (pos i) (record p { state_date = date_alpha })
    else gives (refuse (unknown_format datestr))

-- The cases of `dateDigit`: a dash, a slash, a colon, a period and a space.
unfoldable pub digit_dash : ℕ → Parser → Parser
digit_dash i p =
    if i == 4
    then set (pos 0) (codes "2006") (record p {
      state_date = date_year_dash;
      yeari = pos 0;
      yearlen = pos i;
      moi = pos (i + 1);
    })
    else record p { state_date = date_digit_dash }

unfoldable pub digit_slash : ℕ → Parser → Parser
digit_slash i p =
    if p.prefer_month_first
    then (if equals p.molen 0
        then (let q = set_month (record p { molen = pos i }) in record q { dayi = pos (i + 1) })
        else p)
    else (if equals p.daylen 0
        then (let q = set_day (record p { daylen = pos i }) in record q { moi = pos (i + 1) })
        else p)

unfoldable pub slash_year : ℕ → Parser → Parser
slash_year i p =
    let q =
      set_year (record p { state_date = date_digit_slash; yearlen = pos i; moi = pos (i + 1) }) in
    record q { state_date = date_digit_year_slash }

unfoldable pub digit_colon : ℕ → Parser → Parser
digit_colon i p =
    let q = record p { state_date = date_digit_colon } in
    if i == 4
    then set_year (record q { yearlen = pos i; moi = pos (i + 1) })
    else (let r = record q { ambiguous_md = true } in
        if r.prefer_month_first
        then (if equals r.molen 0
            then (let m = set_month (record r { molen = pos i }) in record m { dayi = pos (i + 1) })
            else r)
        else r)

unfoldable pub digit_period : ℕ → Parser → Parser
digit_period i p =
    let q = record p { state_date = date_digit_dot } in
    if i == 4
    then set_year (record q { yearlen = pos i; moi = pos (i + 1) })
    else (let m = set_month (record q { ambiguous_md = true; moi = pos 0; molen = pos i }) in
        record m { dayi = pos (i + 1) })

unfoldable pub digit_space : ℕ → Parser → Parser
digit_space i p =
    if i == 6
    then record p { state_date = date_digit_st }
    else record p { state_date = date_digit_ws; dayi = pos 0; daylen = pos i }

-- `p.part1Len = i`, at the end of the case.
abbrev pub first_part : ℕ → Parser → Step
first_part i p = next (pos i) (record p { part1_len = pos i })

unfoldable pub digit_step : Tables → Bytes → ℕ → ℕ → Parser → Step
unfolding digit_dash digit_slash slash_year digit_colon digit_period digit_space
digit_step u datestr i r p =
    if r == b'-' || r == 0x2212
    then first_part i (digit_dash i p)
    else if r == b'/'
    then (if i == 4
        then first_part i (slash_year i p)
        else if ltb (i + 2) (length p.datestr) && is_letter u (get_or datestr (i + 1) 0)
        then next (pos i) (
            set_day (record p {
              state_date = date_digit_slash_alpha;
              moi = pos (i + 1);
              daylen = pos 2;
              dayi = pos 0;
            }))
        else first_part i
            (digit_slash i (record p { state_date = date_digit_slash; ambiguous_md = true })))
    else if r == b':'
    then first_part i (digit_colon i p)
    else if r == b'.'
    then first_part i (digit_period i p)
    else if r == b' '
    then first_part i (digit_space i p)
    else if r == 0x5e74
    then first_part i (record p { state_date = date_digit_chinese_year })
    else if r == b','
    then gives (refuse (unknown_format datestr))
    else next (pos i) p

-- `dateDigitSt`.
unfoldable pub digit_st_step : ℕ → Parser → Step
digit_st_step i p =
    let q = set (pos 0) (codes "060102") p in
    leave (sub_ℕ i 1) (record q { state_time = time_start })

-- `dateDigitChineseYear`.
unfoldable pub chinese_step : ℕ → ℕ → Parser → Step
chinese_step i r p =
    if r == b' '
    then next (pos i) (record p { state_date = date_digit_chinese_year_ws })
    else next (pos i) p
