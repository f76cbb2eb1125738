-- ===== src/DateParse/Clock/Sound.antt =====
-- The invariant of the time loop: where the part below a second stands, and how the text of the
-- parser compares with `datestr`.
pub mod Start
pub mod Zones
pub mod Periods
use watchmaker.Prelude.{ℕ, ◌+◌, ◌≡◌, ◌≤◌, ◌<◌, length, arith}
use watchmaker.Prelude.Int.{ℤ, pos, negsuc}
use watchmaker.Go.Text.{Bytes}
use watchmaker.DateParse.States.{
  time_start, time_ws, time_ws_alpha, time_ws_alpha_zone_offset, time_ws_alpha_zone_offset_ws,
  time_ws_alpha_zone_offset_ws_extra, time_ws_ampm_maybe, time_ws_offset, time_ws_offset_ws,
  time_offset, time_period, time_period_ws, time_period_ws_offset, time_period_ws_offset_ws_alpha,
  TimeState,
}
use watchmaker.DateParse.Fields.{Parser, to_nat}
use watchmaker.DateParse.Steps.{Step, next, leave, swap, gives, again, crash}
use watchmaker.DateParse.Weight.{weight}
use watchmaker.DateParse.Loop.{raised}
use watchmaker.DateParse.Aligned.{IsAligned}
use watchmaker.DateParse.Date.Fine.{IsIndex}
use watchmaker.DateParse.Clock.Kept.{finish}

-- A state behind a space, where there is no part below a second that has a length.
abbrev pub NoFraction : ℕ → Parser → Type 0
NoFraction i p = (1 ≤ i) × (to_nat p.mslen ≡ 0)

abbrev pub Part : TimeState → Bytes → ℕ → Parser → Type 0
Part time_start s i p = (p.datestr ≡ s) × (to_nat p.mslen ≡ 0) × (to_nat p.msi ≤ i)
Part time_period s i p =
    (length p.datestr ≡ length s) × (to_nat p.msi ≤ i) × (1 ≤ i) × (i ≤ length s)
Part time_offset s i p = IsIndex p.offseti × (to_nat p.offseti ≤ length s)
Part time_period_ws s i p = (length p.datestr ≡ length s) × (to_nat p.msi + 1 ≤ i)
Part time_period_ws_offset s i p = finish p + 2 ≤ i
Part time_period_ws_offset_ws_alpha s i p = finish p + 3 ≤ i
Part time_ws s i p = NoFraction i p
Part time_ws_alpha s i p = NoFraction i p
Part time_ws_alpha_zone_offset s i p = NoFraction i p
Part time_ws_alpha_zone_offset_ws s i p = NoFraction i p
Part time_ws_alpha_zone_offset_ws_extra s i p = NoFraction i p
Part time_ws_ampm_maybe s i p = NoFraction i p
Part time_ws_offset s i p = NoFraction i p
Part time_ws_offset_ws s i p = NoFraction i p
Part _ s i p = Unit

-- In every state: the layout is as long as the text, and the part below a second is in it.
abbrev pub Common : Parser → Type 0
Common p = IsAligned p × IsIndex p.msi × (finish p ≤ length p.format)

abbrev pub Sound : Bytes → ℕ → Parser → Type 0
Sound s i p = Common p × Part p.state_time s i p

-- Behind the loop.
abbrev pub Done : TimeState → Bytes → ℤ → Parser → Type 0
Done time_period s (pos i) p = (to_nat p.msi ≤ i) × (i ≤ length p.format) × (i ≤ length s)
Done time_period s (negsuc k) p = ⊥
Done time_offset s i p = IsIndex p.offseti × (to_nat p.offseti ≤ length s)
Done time_ws_alpha s i p = to_nat p.mslen ≡ 0
Done time_ws_alpha_zone_offset_ws_extra s i p = to_nat p.mslen ≡ 0
Done _ s i p = Unit

abbrev pub Onward : Bytes → ℕ → ℤ → Parser → Type 0
Onward s i (pos k) q = (i + 1 ≤ k) × Sound s k q
Onward s i (negsuc k) q = ⊥

-- A turn at the index i.
abbrev pub Good : Bytes → ℕ → Step → Type 0
Good s i (next j q) = Onward s i (raised j) q
Good s i (leave j q) = Common q × Done q.state_time s j q
Good s i (swap t j q) = Onward t i (raised j) q × (length t ≡ length s) × (weight t ≤ weight s)
Good s i (gives f) = ⊥
Good s i (again local text kept) = (weight text + 1 ≤ weight s) × (weight local ≤ weight s)
Good s i crash = ⊥
