-- ===== src/DateParse/Clock/Turn.antt =====
-- date_parse.go: one turn of the time loop, which goes byte by byte.
use watchmaker.Prelude.{ℕ, get_or}
use watchmaker.Prelude.Int.{pos}
use watchmaker.Go.Text.{Bytes}
use watchmaker.DateParse.States.{
  time_start, time_ws, time_ws_alpha, time_ws_alpha_zone_offset, time_ws_alpha_zone_offset_ws,
  time_ws_alpha_zone_offset_ws_year, time_ws_ampm_maybe, time_ws_offset, time_ws_offset_ws,
  time_ws_offset_colon, time_offset, time_period, time_period_offset, time_period_offset_colon,
  time_period_ws, time_period_ws_offset, time_period_ws_offset_ws_alpha,
  time_period_ws_offset_colon, time_z, TimeState,
}
use watchmaker.DateParse.Fields.{Parser}
use watchmaker.DateParse.Runes.{Tables}
use watchmaker.DateParse.Steps.{Step, next}
use watchmaker.DateParse.Loop.{Turn}
use watchmaker.DateParse.Clock.Start.{time_start_step}
use watchmaker.DateParse.Clock.Zones.{
  offset_step, ws_step, ws_alpha_step, zone_offset_step, zone_offset_ws_step, zone_year_step,
  ampm_step, ws_offset_step, ws_offset_ws_step, ws_offset_colon_step,
}
use watchmaker.DateParse.Clock.Periods.{
  period_step, period_offset_step, period_colon_step, period_ws_step, period_ws_offset_step,
  period_alpha_step, period_ws_colon_step, z_step,
}

-- `switch p.stateTime`.
unfoldable pub time_step : TimeState → Tables → Bytes → ℕ → ℕ → Parser → Step
time_step time_start u s i r p = time_start_step s i r p
time_step time_offset u s i r p = offset_step i r p
time_step time_ws u s i r p = ws_step u i r p
time_step time_ws_alpha u s i r p = ws_alpha_step i r p
time_step time_ws_alpha_zone_offset u s i r p = zone_offset_step i r p
time_step time_ws_alpha_zone_offset_ws u s i r p = zone_offset_ws_step u i r p
time_step time_ws_alpha_zone_offset_ws_year u s i r p = zone_year_step u i r p
time_step time_ws_ampm_maybe u s i r p = ampm_step i r p
time_step time_ws_offset u s i r p = ws_offset_step i r p
time_step time_ws_offset_ws u s i r p = ws_offset_ws_step u s i r p
time_step time_ws_offset_colon u s i r p = ws_offset_colon_step u i r p
time_step time_period u s i r p = period_step u i r p
time_step time_period_offset u s i r p = period_offset_step i r p
time_step time_period_offset_colon u s i r p = period_colon_step i r p
time_step time_period_ws u s i r p = period_ws_step u i r p
time_step time_period_ws_offset u s i r p = period_ws_offset_step u i r p
time_step time_period_ws_offset_ws_alpha u s i r p = period_alpha_step s i r p
time_step time_period_ws_offset_colon u s i r p = period_ws_colon_step u i r p
time_step time_z u s i r p = z_step u i r p
time_step _ u s i r p = next (pos i) p

unfoldable pub time_turn : Tables → Turn
unfolding time_step
time_turn u s i p = time_step p.state_time u s i (get_or s i 0) p
