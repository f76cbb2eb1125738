-- ===== src/DateParse/States.antt =====
-- date_parse.go: `dateState` and `timeState`.
use watchmaker.Prelude.{Bool, true, false}

pub data DateState : Type 0 where
  date_start date_digit date_digit_st date_year_dash date_year_dash_alpha_dash : DateState
  date_year_dash_dash date_year_dash_dash_ws date_year_dash_dash_t : DateState
  date_year_dash_dash_offset date_digit_dash date_digit_dash_alpha : DateState
  date_digit_dash_alpha_dash date_digit_dot date_digit_dot_dot date_digit_slash : DateState
  date_digit_year_slash date_digit_slash_alpha date_digit_colon date_digit_chinese_year : DateState
  date_digit_chinese_year_ws date_digit_ws date_digit_ws_mo_year date_digit_ws_molong : DateState
  date_alpha date_alpha_ws date_alpha_ws_digit date_alpha_ws_digit_more : DateState
  date_alpha_ws_digit_more_ws date_alpha_ws_digit_more_ws_year date_alpha_ws_month : DateState
  date_alpha_ws_digit_yearmaybe date_alpha_ws_month_more date_alpha_ws_month_suffix : DateState
  date_alpha_ws_more date_alpha_ws_at_time date_alpha_ws_alpha : DateState
  date_alpha_ws_alpha_yearmaybe date_alpha_period_ws_digit date_weekday_comma : DateState
  date_weekday_abbrev_comma : DateState

pub data TimeState : Type 0 where
  time_ignore time_start time_ws time_ws_alpha time_ws_alpha_ws time_ws_alpha_zone_offset :
      TimeState
  time_ws_alpha_zone_offset_ws time_ws_alpha_zone_offset_ws_year : TimeState
  time_ws_alpha_zone_offset_ws_extra time_ws_ampm_maybe time_ws_ampm time_ws_offset : TimeState
  time_ws_offset_ws time_ws_offset_colon_alpha time_ws_offset_colon time_ws_year : TimeState
  time_offset time_offset_colon time_alpha time_period time_period_offset : TimeState
  time_period_offset_colon time_period_offset_colon_ws time_period_ws time_period_ws_alpha :
      TimeState
  time_period_ws_offset time_period_ws_offset_ws time_period_ws_offset_ws_alpha : TimeState
  time_period_ws_offset_colon time_period_ws_offset_colon_alpha time_z time_z_digit : TimeState

-- `p.stateTime == timeStart`.
abbrev pub is_time_start : TimeState → Bool
is_time_start time_start = true
is_time_start _ = false
