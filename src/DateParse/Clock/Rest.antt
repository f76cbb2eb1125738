-- ===== src/DateParse/Clock/Rest.antt =====
-- What is done behind the time loop does not panic.
use watchmaker.Prelude.{◌≡◌, ◌≤◌, ◌<◌, refl, arith, length}
use watchmaker.Prelude.Int.{ℤ, pos, negsuc}
use watchmaker.Prelude.Outcome.{Outcome, ok, fail, panic, hung}
use watchmaker.Go.Text.{Bytes}
use watchmaker.Go.Words.{two_63}
use watchmaker.Errors.{Error}
use watchmaker.DateParse.States.{
  time_ws_alpha, time_ws_alpha_zone_offset_ws_extra, time_offset, time_period, TimeState,
}
use watchmaker.DateParse.Fields.{Parser, to_nat}
use watchmaker.DateParse.Steps.{IsProper}
use watchmaker.DateParse.Loop.{gave, calls, Stop, behind, replies}
use watchmaker.DateParse.Time.{trim_extra}
use watchmaker.DateParse.Aligned.{IsAligned}
use watchmaker.DateParse.Clock.End.{
  zone_end, year_end, offset_end, ws_zone_end, period_zone_end, time_end_at, time_end, goes_on,
}
use watchmaker.DateParse.Clock.Kept.{finish, set-Kept, set_year-Kept, minus-msi, trim_extra-Returns}
use watchmaker.DateParse.Clock.Sound.{Common, Done}
use watchmaker.DateParse.Date.Fine.{IsIndex}

-- The part below a second is in the layout, or an error is returned.
abbrev pub Rested : Bytes → Outcome Error Stop → Type 0
Rested s (ok (behind t j q)) = (t ≡ s) × (finish q ≤ length q.format)
Rested s (ok (replies (gave t f))) = (t ≡ s) × IsProper f
Rested s (ok (replies (calls local text kept))) = ⊥
Rested s (fail e) = ⊥
Rested s panic = ⊥
Rested s hung = ⊥

trimmed-Rested :
    (s : Bytes) (i : ℤ) (p : Parser)
    → IsAligned p
    → to_nat p.mslen ≡ 0
    → Rested s (goes_on s i (trim_extra p))
trimmed-Rested s i p same h =
    let (q, returns, aligned, fits, start, count, offset, states, month, skip) =
      trim_extra-Returns p 0 same (omega arith) (omega arith) in
    rw returns (refl, ground arith)

module _ (s : Bytes) (i : ℤ) (p : Parser) (common : Common p) where
  zone_end-Rested : to_nat p.mslen ≡ 0 → Rested s (zone_end s i p)
  unfolding zone_end
  zone_end-Rested h = grind (arith, set-Kept, trimmed-Rested)

  offset_end-Rested : IsIndex p.offseti → to_nat p.offseti ≤ length s → Rested s (offset_end s i p)
  unfolding offset_end
  offset_end-Rested h g = grind (arith, set-Kept)

period_end :
    (s : Bytes) (i : ℤ) (p : Parser)
    → Common p
    → length s < two_63
    → Done time_period s i p
    → Rested s (time_end_at time_period s i p)
unfolding time_end_at
period_end s (negsuc k) p c short h = elim h [ ]
period_end s (pos i) p c short h = ground (arith, minus-msi i p c.1 h.0 (omega arith))

module _ (s : Bytes) (i : ℤ) (p : Parser) (common : Common p) (short : length s < two_63) where
  time_end_at-Rested : (at : TimeState) → Done at s i p → Rested s (time_end_at at s i p)
  unfolding time_end_at year_end ws_zone_end period_zone_end
  time_end_at-Rested time_ws_alpha h = zone_end-Rested s i p common h
  time_end_at-Rested time_ws_alpha_zone_offset_ws_extra h = trimmed-Rested s i p common.0 h
  time_end_at-Rested time_offset h = offset_end-Rested s i p common h.0 h.1
  time_end_at-Rested time_period h = period_end s i p common short h
  time_end_at-Rested _ h = grind (arith, set-Kept, set_year-Kept)

pub time_end-Rested :
    (s : Bytes) (i : ℤ) (p : Parser)
    → Common p
    → length s < two_63
    → Done p.state_time s i p
    → Rested s (time_end s i p)
unfolding time_end
time_end-Rested s i p common short h = time_end_at-Rested s i p common short p.state_time h
