-- ===== src/DateParse/Clock/Zones.antt =====
-- date_parse.go: the turns of the time loop behind a space: a zone, an offset, a year, AM or PM.
use watchmaker.Prelude.{ℕ, ◌+◌, ◌-◌, ◌&&◌, ◌||◌, ◌==◌, if◌then◌else◌, get_or}
use watchmaker.Prelude.Int.{ℤ, pos, sub_ℕ, ◌+ℤ◌}
use watchmaker.Go.Text.{Bytes, codes}
use watchmaker.Go.Words.{wrap64}
use watchmaker.DateParse.States.{
  time_ws_alpha, time_ws_alpha_ws, time_ws_alpha_zone_offset, time_ws_alpha_zone_offset_ws,
  time_ws_alpha_zone_offset_ws_year, time_ws_alpha_zone_offset_ws_extra, time_ws_ampm_maybe,
  time_ws_ampm, time_ws_offset, time_ws_offset_ws, time_ws_offset_colon_alpha, time_ws_offset_colon,
  time_ws_year, time_offset_colon,
}
use watchmaker.DateParse.Fields.{Parser, set, set_year, equals}
use watchmaker.DateParse.Time.{trim_extra}
use watchmaker.DateParse.Runes.{Tables, is_digit, is_letter, one_of}
use watchmaker.DateParse.Steps.{Step, next, leave, crash, minus, after}

-- `timeOffset`.
unfoldable pub offset_step : ℕ → ℕ → Parser → Step
offset_step i r p =
    if r == b':' then next (pos i) (record p { state_time = time_offset_colon }) else next (pos i) p

-- `timeWs`.
unfoldable pub ws_step : Tables → ℕ → ℕ → Parser → Step
ws_step u i r p =
    if r == b'A' || r == b'P'
    then next (pos i) (record p { tzi = pos i; state_time = time_ws_ampm_maybe })
    else if r == b'+' || r == b'-'
    then next (pos i) (record p { offseti = pos i; state_time = time_ws_offset })
    else if is_letter u r
    then next (pos i) (record p { tzi = pos i; state_time = time_ws_alpha })
    else if is_digit u r
    then next (pos i) (record p { state_time = time_ws_year; yeari = pos i })
    else next (pos i) p

-- The zone that ends here.
unfoldable pub zone_until : ℕ → Parser → Parser
zone_until i p =
    let q = record p { tzlen = minus i p.tzi } in
    if equals q.tzlen 4
    then set q.tzi (codes " MST") q
    else if equals q.tzlen 3
    then set q.tzi (codes "MST") q
    else q

-- `timeWsAlpha`.
unfoldable pub ws_alpha_step : ℕ → ℕ → Parser → Step
unfolding zone_until
ws_alpha_step i r p =
    let q = zone_until i p in
    if r == b'+' || r == b'-'
    then next (pos i) (record q { state_time = time_ws_alpha_zone_offset; offseti = pos i })
    else if r == b' '
    then next (pos i) (record q { state_time = time_ws_alpha_ws; yeari = pos (i + 1) })
    else next (pos i) p

-- `timeWsAlphaZoneOffset`.
unfoldable pub zone_offset_step : ℕ → ℕ → Parser → Step
zone_offset_step i r p =
    if r == b' '
    then (let q = set p.offseti (codes "-0700") p in
        let t = if equals q.yeari 0 then record q { yeari = pos (i + 1) } else q in
        next (pos i) (record t { state_time = time_ws_alpha_zone_offset_ws }))
    else next (pos i) p

-- `timeWsAlphaZoneOffsetWs`.
unfoldable pub zone_offset_ws_step : Tables → ℕ → ℕ → Parser → Step
zone_offset_ws_step u i r p =
    if is_digit u r
    then next (pos i) (record p { state_time = time_ws_alpha_zone_offset_ws_year })
    else next (pos i)
        (record p { extra = sub_ℕ i 1; state_time = time_ws_alpha_zone_offset_ws_extra })

-- A year of four digits, the last of which is here.
unfoldable pub year_through : ℕ → Parser → Parser
year_through i p =
    let q = record p { yearlen = wrap64 (minus i p.yeari +ℤ pos 1) } in
    if equals q.yearlen 4 then set_year q else q

-- `timeWsAlphaZoneOffsetWsYear`.
unfoldable pub zone_year_step : Tables → ℕ → ℕ → Parser → Step
unfolding year_through
zone_year_step u i r p = if is_digit u r then next (pos i) (year_through i p) else next (pos i) p

-- `timeWsAMPMMaybe`.
unfoldable pub ampm_step : ℕ → ℕ → Parser → Step
ampm_step i r p =
    if r == b'M'
    then (let q = set (sub_ℕ i 1) (codes "PM") (record p { state_time = time_ws_ampm }) in
        next (pos i) (
          if equals q.hourlen 2
          then set q.houri (codes "03") q
          else if equals q.hourlen 1
          then set q.houri (codes "3") q
          else q))
    else next (pos i) (record p { state_time = time_ws_alpha })

-- `timeWsOffset`.
unfoldable pub ws_offset_step : ℕ → ℕ → Parser → Step
ws_offset_step i r p =
    if r == b':'
    then next (pos i) (record p { state_time = time_ws_offset_colon })
    else if r == b' '
    then (let q = set p.offseti (codes "-0700") p in
        next (pos i) (record q { yeari = pos (i + 1); state_time = time_ws_offset_ws }))
    else next (pos i) p

-- The text behind `extra` is dropped.
unfoldable pub trim_at : ℤ → ℕ → Parser → Step
trim_at extra i p = after (trim_extra (record p { extra = extra })) (λ q. next (pos i) q)

-- "m=", the reading of a monotonic clock.
unfoldable pub monotonic : Bytes → ℕ → Parser → Step
unfolding trim_at
monotonic datestr i p =
    if i == 0
    then crash
    else if get_or datestr (i - 1) 0 == b'm'
    then trim_at (sub_ℕ i 2) i p
    else next (pos i) p

-- `timeWsOffsetWs`.
unfoldable pub ws_offset_ws_step : Tables → Bytes → ℕ → ℕ → Parser → Step
unfolding monotonic year_through trim_at
ws_offset_ws_step u datestr i r p =
    if r == b'='
    then monotonic datestr i p
    else if one_of r (codes "+-(")
    then trim_at (sub_ℕ i 1) i (record p { state_time = time_ws_offset })
    else if is_digit u r
    then next (pos i) (year_through i p)
    else if is_letter u r && equals p.tzi 0
    then next (pos i) (record p { tzi = pos i })
    else next (pos i) p

-- `timeWsOffsetColon`.
unfoldable pub ws_offset_colon_step : Tables → ℕ → ℕ → Parser → Step
ws_offset_colon_step u i r p =
    if is_letter u r
    then leave (pos i) (record p { state_time = time_ws_offset_colon_alpha })
    else next (pos i) p
