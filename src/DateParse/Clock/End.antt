-- ===== src/DateParse/Clock/End.antt =====
-- date_parse.go: what `parseTime` does behind the time loop with the part that the text ends in.
use watchmaker.Prelude.{◌||◌, ltb, if◌then◌else◌, length}
use watchmaker.Prelude.Int.{ℤ, pos, sub_ℕ, ◌-ℤ◌, ltb_ℤ}
use watchmaker.Prelude.Outcome.{Outcome, ok, fail, panic, hung}
use watchmaker.Go.Text.{Bytes, codes}
use watchmaker.Go.Words.{wrap64}
use watchmaker.Errors.{Error, bad_zone}
use watchmaker.DateParse.States.{
  time_ws_alpha, time_ws_alpha_ws, time_ws_alpha_zone_offset, time_ws_alpha_zone_offset_ws_extra,
  time_ws_offset, time_ws_offset_ws, time_ws_offset_colon, time_ws_year, time_offset,
  time_offset_colon, time_period, time_period_offset, time_period_offset_colon,
  time_period_ws_offset, time_period_ws_offset_colon_alpha, TimeState,
}
use watchmaker.DateParse.Fields.{Parser, set, set_year, equals, is_above_zero, to_nat}
use watchmaker.DateParse.Time.{trim_extra}
use watchmaker.DateParse.Steps.{with_error, minus}
use watchmaker.DateParse.Loop.{Stop, behind, replies, gave}

-- `len(p.datestr) - z`.
abbrev pub rest_from : ℤ → Parser → ℤ
rest_from z p = minus (length p.datestr) z

-- A call that changes the parser or panics, and the rest of the way.
abbrev pub goes_on : Bytes → ℤ → Outcome Error Parser → Outcome Error Stop
goes_on s i (ok q) = ok (behind s i q)
goes_on s i (fail e) = fail e
goes_on s i panic = panic
goes_on s i hung = hung

-- `timeWsAlpha`.
unfoldable pub zone_end : Bytes → ℤ → Parser → Outcome Error Stop
zone_end s i p =
    let left = rest_from p.tzi p in
    if equals left 3
    then ok (behind s i (set p.tzi (codes "MST") p))
    else if equals left 4
    then (let q = set p.tzi (codes "MST") p in
        goes_on s i (trim_extra (record q { extra = sub_ℕ (length q.datestr) 1 })))
    else ok (behind s i p)

-- `timeWsAlphaWs` and `timeWsYear`.
unfoldable pub year_end : ℤ → Parser → Parser
year_end i p = set_year (record p { yearlen = wrap64 (i -ℤ p.yeari) })

-- `timeOffset`: an offset has 2 or 4 digits.
unfoldable pub offset_end : Bytes → ℤ → Parser → Outcome Error Stop
offset_end s i p =
    let left = rest_from p.offseti p in
    if equals left 0 || equals left 1 || equals left 2 || equals left 4
    then (if ltb_ℤ p.offseti (pos 0) || ltb (length s) (to_nat p.offseti)
        then panic
        else ok (replies (gave s (with_error p (bad_zone s)))))
    else if equals left 3
    then ok (behind s i (set p.offseti (codes "-07") p))
    else if equals left 5
    then ok (behind s i (set p.offseti (codes "-0700") p))
    else ok (behind s i p)

-- `timeWsOffsetWs`.
unfoldable pub ws_zone_end : Parser → Parser
ws_zone_end p =
    if is_above_zero p.tzi
    then (let left = rest_from p.tzi p in
        if equals left 3
        then set p.tzi (codes "MST") p
        else if equals left 4
        then set p.tzi (codes "MST ") p
        else p)
    else p

-- `timePeriodWsOffsetColonAlpha`.
unfoldable pub period_zone_end : ℤ → Parser → Parser
period_zone_end i p =
    let q = record p { tzlen = wrap64 (i -ℤ p.tzi) } in
    if equals q.tzlen 3
    then set q.tzi (codes "MST") q
    else if equals q.tzlen 4
    then set q.tzi (codes "MST ") q
    else q

unfoldable pub time_end_at : TimeState → Bytes → ℤ → Parser → Outcome Error Stop
unfolding zone_end year_end offset_end ws_zone_end period_zone_end
time_end_at time_ws_alpha s i p = zone_end s i p
time_end_at time_ws_alpha_ws s i p = ok (behind s i (year_end i p))
time_end_at time_ws_year s i p = ok (behind s i (year_end i p))
time_end_at time_ws_alpha_zone_offset_ws_extra s i p = goes_on s i (trim_extra p)
time_end_at time_ws_alpha_zone_offset s i p = ok (
    behind s i (
      if ltb_ℤ (wrap64 (i -ℤ p.offseti)) (pos 4)
      then set p.offseti (codes "-07") p
      else set p.offseti (codes "-0700") p))
time_end_at time_period s i p = ok (behind s i (record p { mslen = wrap64 (i -ℤ p.msi) }))
time_end_at time_offset s i p = offset_end s i p
time_end_at time_ws_offset s i p = ok (behind s i (set p.offseti (codes "-0700") p))
time_end_at time_ws_offset_ws s i p = ok (behind s i (ws_zone_end p))
time_end_at time_ws_offset_colon s i p = ok (behind s i (set p.offseti (codes "-07:00") p))
time_end_at time_offset_colon s i p = ok (behind s i (set p.offseti (codes "-07:00") p))
time_end_at time_period_offset s i p = ok (behind s i (set p.offseti (codes "-0700") p))
time_end_at time_period_offset_colon s i p = ok (behind s i (set p.offseti (codes "-07:00") p))
time_end_at time_period_ws_offset_colon_alpha s i p = ok (behind s i (period_zone_end i p))
time_end_at time_period_ws_offset s i p = ok (behind s i (set p.offseti (codes "-0700") p))
time_end_at _ s i p = ok (behind s i p)

unfoldable pub time_end : Bytes → ℤ → Parser → Outcome Error Stop
unfolding time_end_at
time_end s i p = time_end_at p.state_time s i p
