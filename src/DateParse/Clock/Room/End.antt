-- ===== src/DateParse/Clock/Room/End.antt =====
-- What is done behind the time loop keeps the words of the date.
use watchmaker.Prelude.{◌≤◌, ◌∙◌, arith, length}
use watchmaker.Prelude.Int.{ℤ}
use watchmaker.Prelude.Outcome.{Outcome, ok}
use watchmaker.Go.Text.{Bytes}
use watchmaker.Errors.{Error}
use watchmaker.DateParse.States.{
  time_ws_alpha, time_ws_alpha_zone_offset_ws_extra, time_offset, TimeState,
}
use watchmaker.DateParse.Fields.{Parser, to_nat}
use watchmaker.DateParse.Loop.{gave, Stop, behind, replies}
use watchmaker.DateParse.Usable.{UsableFound}
use watchmaker.DateParse.Time.{trim_extra}
use watchmaker.DateParse.Aligned.{IsAligned}
use watchmaker.DateParse.Clock.End.{
  zone_end, year_end, offset_end, ws_zone_end, period_zone_end, time_end_at, time_end, goes_on,
}
use watchmaker.DateParse.Clock.Kept.{set-Kept, set_year-Kept, trim_extra-Returns}
use watchmaker.DateParse.Clock.Room.{Words, HasWords, LastRoom}

-- A parser whose layout is as long as the text and holds the name of the month.
abbrev pub Holds : Words → Parser → Type 0
Holds w p = IsAligned p × HasWords w p

abbrev pub HoldsBehind : Words → Outcome Error Stop → Type 0
HoldsBehind w (ok (behind t j q)) = Holds w q
HoldsBehind w (ok (replies (gave t f))) = UsableFound f
HoldsBehind w _ = Unit

trimmed-HoldsBehind :
    (w : Words) (s : Bytes) (i : ℤ) (p : Parser)
    → Holds w p
    → length w.month ≤ to_nat p.extra
    → HoldsBehind w (goes_on s i (trim_extra p))
trimmed-HoldsBehind w s i p h before =
    let (q, returns, aligned, fits, start, count, offset, states, month, skip) =
      trim_extra-Returns p (length w.month) h.0 h.1.3 before in
    rw returns (aligned, (month ∙ h.1.0, skip ∙ h.1.1, states.0 ∙ h.1.2, fits))

module _ (w : Words) (s : Bytes) (i : ℤ) (p : Parser) (holds : Holds w p) where
  zone_end-HoldsBehind : LastRoom time_ws_alpha (length w.month) p → HoldsBehind w (zone_end s i p)
  unfolding zone_end
  zone_end-HoldsBehind h = grind (arith, set-Kept, trimmed-HoldsBehind)

  offset_end-HoldsBehind : HoldsBehind w (offset_end s i p)
  unfolding offset_end
  offset_end-HoldsBehind = grind (arith, set-Kept)

  time_end_at-HoldsBehind :
      (at : TimeState) → LastRoom at (length w.month) p → HoldsBehind w (time_end_at at s i p)
  unfolding time_end_at year_end ws_zone_end period_zone_end
  time_end_at-HoldsBehind time_ws_alpha h = zone_end-HoldsBehind h
  time_end_at-HoldsBehind time_ws_alpha_zone_offset_ws_extra h = trimmed-HoldsBehind w s i p holds h
  time_end_at-HoldsBehind time_offset h = offset_end-HoldsBehind
  time_end_at-HoldsBehind _ h = grind (arith, set-Kept, set_year-Kept)

pub time_end-HoldsBehind :
    (w : Words) (s : Bytes) (i : ℤ) (p : Parser)
    → Holds w p
    → LastRoom p.state_time (length w.month) p
    → HoldsBehind w (time_end s i p)
unfolding time_end
time_end-HoldsBehind w s i p holds h = time_end_at-HoldsBehind w s i p holds p.state_time h
