-- ===== src/DateParse/Clock/Room.antt =====
-- The time loop keeps the words of the date, and leaves room for the full name of a month.
pub mod Start
pub mod Zones
pub mod Periods
pub mod Loop
pub mod End
use watchmaker.Prelude.{ℕ, ◌+◌, ◌≡◌, ◌≤◌, length}
use watchmaker.Prelude.Int.{ℤ, pos, negsuc}
use watchmaker.Go.Text.{Bytes}
use watchmaker.DateParse.States.{
  time_start, time_ws, time_ws_alpha, time_ws_alpha_zone_offset, time_ws_alpha_zone_offset_ws,
  time_ws_alpha_zone_offset_ws_extra, time_ws_ampm_maybe, time_ws_offset, time_ws_offset_ws,
  time_period, time_period_ws, time_period_ws_offset, time_period_ws_offset_ws_alpha, DateState,
  TimeState,
}
use watchmaker.DateParse.Fields.{Parser, to_nat}
use watchmaker.DateParse.Steps.{Step, next, leave, swap}
use watchmaker.DateParse.Loop.{raised}

-- The name, the text that is skipped, and the state of the date.
pub record Words : Type 0 where
  pub month : Bytes
  pub skipped : ℤ
  pub date : DateState

abbrev pub HasWords : Words → Parser → Type 0
HasWords w p =
    (p.full_month ≡ w.month)
    × (p.skip ≡ w.skipped)
    × (p.state_date ≡ w.date)
    × (length w.month ≤ length p.format)

-- How far behind the name the index is, and the layout where it can be cut.
abbrev pub Behind : TimeState → ℕ → Bytes → ℕ → Parser → Type 0
Behind time_start m s i p = (length p.format ≡ length s) × (m ≤ i)
Behind time_ws m s i p = (length p.format ≡ length s) × (m + 1 ≤ i)
Behind time_ws_ampm_maybe m s i p = (length p.format ≡ length s) × (m + 1 ≤ i)
Behind time_ws_alpha m s i p = (m + 2 ≤ length p.format) × (m + 1 ≤ i)
Behind time_ws_alpha_zone_offset m s i p = m + 1 ≤ i
Behind time_ws_alpha_zone_offset_ws m s i p = m + 1 ≤ i
Behind time_ws_alpha_zone_offset_ws_extra m s i p = m ≤ to_nat p.extra
Behind time_ws_offset m s i p = m + 2 ≤ i
Behind time_ws_offset_ws m s i p = m + 3 ≤ i
Behind time_period m s i p = m + 1 ≤ i
Behind time_period_ws m s i p = m + 2 ≤ i
Behind time_period_ws_offset m s i p = m + 3 ≤ i
Behind time_period_ws_offset_ws_alpha m s i p = m + 4 ≤ i
Behind _ m s i p = Unit

abbrev pub Roomy : Words → Bytes → ℕ → Parser → Type 0
Roomy w s i p = HasWords w p × Behind p.state_time (length w.month) s i p

-- Behind the loop.
abbrev pub LastRoom : TimeState → ℕ → Parser → Type 0
LastRoom time_ws_alpha m p = m + 2 ≤ length p.format
LastRoom time_ws_alpha_zone_offset_ws_extra m p = m ≤ to_nat p.extra
LastRoom _ m p = Unit

abbrev pub RoomyAt : Words → Bytes → ℤ → Parser → Type 0
RoomyAt w s (pos k) q = Roomy w s k q
RoomyAt w s (negsuc k) q = Unit

abbrev pub Leaves : Words → Bytes → Step → Type 0
Leaves w s (next j q) = RoomyAt w s (raised j) q
Leaves w s (leave j q) = HasWords w q × LastRoom q.state_time (length w.month) q
Leaves w s (swap t j q) = RoomyAt w t (raised j) q
Leaves w s _ = Unit
