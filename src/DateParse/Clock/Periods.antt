-- ===== src/DateParse/Clock/Periods.antt =====
-- date_parse.go: the turns of the time loop below a second, and behind a `Z`.
use watchmaker.Prelude.{ℕ, ◌+◌, ◌||◌, ◌==◌, if◌then◌else◌}
use watchmaker.Prelude.Int.{pos, sub_ℕ, ◌-ℤ◌}
use watchmaker.Go.Text.{Bytes, codes}
use watchmaker.Go.Words.{wrap64}
use watchmaker.DateParse.States.{
  time_period_offset, time_period_offset_colon, time_period_offset_colon_ws, time_period_ws,
  time_period_ws_alpha, time_period_ws_offset, time_period_ws_offset_ws_alpha,
  time_period_ws_offset_colon, time_period_ws_offset_colon_alpha, time_z_digit,
}
use watchmaker.DateParse.Fields.{Parser, set, equals}
use watchmaker.DateParse.Runes.{Tables, is_digit, is_letter}
use watchmaker.DateParse.Steps.{Step, next, leave, minus}
use watchmaker.DateParse.Clock.Zones.{trim_at, monotonic}

-- `timePeriod`.
unfoldable pub period_step : Tables → ℕ → ℕ → Parser → Step
period_step u i r p =
    let q = record p { mslen = minus i p.msi } in
    if r == b' '
    then next (pos i) (record q { state_time = time_period_ws })
    else if r == b'+' || r == b'-'
    then next (pos i) (record q { offseti = pos i; state_time = time_period_offset })
    else if is_letter u r
    then next (pos i) (record q { state_time = time_period_ws_alpha })
    else next (pos i) p

-- `timePeriodOffset`.
unfoldable pub period_offset_step : ℕ → ℕ → Parser → Step
period_offset_step i r p =
    if r == b':'
    then next (pos i) (record p { state_time = time_period_offset_colon })
    else next (pos i) p

-- `timePeriodOffsetColon`.
unfoldable pub period_colon_step : ℕ → ℕ → Parser → Step
period_colon_step i r p =
    if r == b' '
    then (let q = set p.offseti (codes "-07:00") p in
        next (pos i) (record q { state_time = time_period_offset_colon_ws; tzi = pos (i + 1) }))
    else next (pos i) p

-- `timePeriodWs`.
unfoldable pub period_ws_step : Tables → ℕ → ℕ → Parser → Step
period_ws_step u i r p =
    let q = if equals p.offseti 0 then record p { offseti = pos i } else p in
    if r == b'+' || r == b'-'
    then next (pos i)
        (record q { mslen = wrap64 (minus i q.msi -ℤ pos 1); state_time = time_period_ws_offset })
    else if is_letter u r
    then leave (pos i) (record q { state_time = time_period_ws_offset_ws_alpha })
    else next (pos i) q

-- `timePeriodWsOffset`.
unfoldable pub period_ws_offset_step : Tables → ℕ → ℕ → Parser → Step
unfolding trim_at
period_ws_offset_step u i r p =
    if r == b':'
    then next (pos i) (record p { state_time = time_period_ws_offset_colon })
    else if r == b' '
    then next (pos i) (set p.offseti (codes "-0700") p)
    else if r == b'+' || r == b'-'
    then trim_at (sub_ℕ i 1) i p
    else if is_letter u r
    then next (pos i) (record p { state_time = time_period_ws_offset_ws_alpha })
    else next (pos i) p

-- `timePeriodWsOffsetWsAlpha`.
unfoldable pub period_alpha_step : Bytes → ℕ → ℕ → Parser → Step
unfolding monotonic
period_alpha_step datestr i r p = if r == b'=' then monotonic datestr i p else next (pos i) p

-- `timePeriodWsOffsetColon`.
unfoldable pub period_ws_colon_step : Tables → ℕ → ℕ → Parser → Step
period_ws_colon_step u i r p =
    if r == b' '
    then next (pos i) (set p.offseti (codes "-07:00") p)
    else if is_letter u r
    then next (pos i) (record p { tzi = pos i; state_time = time_period_ws_offset_colon_alpha })
    else next (pos i) p

-- `timeZ`.
unfoldable pub z_step : Tables → ℕ → ℕ → Parser → Step
z_step u i r p =
    if is_digit u r then next (pos i) (record p { state_time = time_z_digit }) else next (pos i) p
