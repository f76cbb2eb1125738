-- ===== src/DateParse/Clock/Room/Loop.antt =====
-- The time loop leaves room for the name of a month.
use watchmaker.Prelude.{
  ℕ, zero, suc, ◌+◌, ◌≡◌, ◌<◌, Bool-cases, inl, inr, ltb, arith, tests, length, get_or, refl,
}
use watchmaker.Prelude.Int.{ℤ, pos, negsuc}
use watchmaker.Prelude.Outcome.{Outcome, ok}
use watchmaker.Go.Text.{Bytes}
use watchmaker.Go.Words.{two_63}
use watchmaker.Errors.{Error}
use watchmaker.DateParse.States.{
  time_start, time_ws, time_ws_alpha, time_ws_alpha_zone_offset, time_ws_alpha_zone_offset_ws,
  time_ws_alpha_zone_offset_ws_year, time_ws_ampm_maybe, time_ws_offset, time_ws_offset_ws,
  time_ws_offset_colon, time_offset, time_period, time_period_offset, time_period_offset_colon,
  time_period_ws, time_period_ws_offset, time_period_ws_offset_ws_alpha,
  time_period_ws_offset_colon, time_z, TimeState,
}
use watchmaker.DateParse.Fields.{Parser}
use watchmaker.DateParse.Runes.{Tables}
use watchmaker.DateParse.Steps.{Step, next, leave, swap, gives, again, crash}
use watchmaker.DateParse.Loop.{Stop, behind, continued, loop}
use watchmaker.DateParse.Clock.Turn.{time_step, time_turn}
use watchmaker.DateParse.Clock.Ends.{time_turn-Good}
use watchmaker.DateParse.Clock.Sound.{Sound, Good}
use watchmaker.DateParse.Clock.Room.{Words, HasWords, LastRoom, Roomy, Leaves}
use watchmaker.DateParse.Clock.Room.Start.{time_start-Leaves}
use watchmaker.DateParse.Clock.Room.Zones.{
  offset-Leaves, ws-Leaves, ws_alpha-Leaves, zone_offset-Leaves, zone_offset_ws-Leaves,
  zone_year-Leaves, ampm-Leaves, ws_offset-Leaves, ws_offset_ws-Leaves, ws_offset_colon-Leaves,
}
use watchmaker.DateParse.Clock.Room.Periods.{
  period-Leaves, period_offset-Leaves, period_colon-Leaves, period_ws-Leaves,
  period_ws_offset-Leaves, period_alpha-Leaves, period_ws_colon-Leaves, z-Leaves,
}

module _ (u : Tables) (w : Words) (s : Bytes) (i r : ℕ) (p : Parser) (inside : i < length s)
    (sound : Sound s i p) (roomy : Roomy w s i p) where
  time_step-Leaves : (at : TimeState) → p.state_time ≡ at → Leaves w s (time_step at u s i r p)
  unfolding time_step
  time_step-Leaves time_start h = time_start-Leaves w s i r p inside sound.0 h roomy
  time_step-Leaves time_offset h = offset-Leaves u w s i r p inside h roomy
  time_step-Leaves time_ws h = ws-Leaves u w s i r p inside h roomy
  time_step-Leaves time_ws_alpha h = ws_alpha-Leaves u w s i r p inside h roomy
  time_step-Leaves time_ws_alpha_zone_offset h = zone_offset-Leaves u w s i r p inside h roomy
  time_step-Leaves time_ws_alpha_zone_offset_ws h = zone_offset_ws-Leaves u w s i r p inside h roomy
  time_step-Leaves time_ws_alpha_zone_offset_ws_year h = zone_year-Leaves u w s i r p inside h roomy
  time_step-Leaves time_ws_ampm_maybe h = ampm-Leaves u w s i r p inside h roomy
  time_step-Leaves time_ws_offset h = ws_offset-Leaves u w s i r p inside h roomy
  time_step-Leaves time_ws_offset_ws h = ws_offset_ws-Leaves u w s i r p inside sound.0.0 h roomy
  time_step-Leaves time_ws_offset_colon h = ws_offset_colon-Leaves u w s i r p inside h roomy
  time_step-Leaves time_period h = period-Leaves u w s i r p inside h roomy
  time_step-Leaves time_period_offset h = period_offset-Leaves u w s i r p inside h roomy
  time_step-Leaves time_period_offset_colon h = period_colon-Leaves u w s i r p inside h roomy
  time_step-Leaves time_period_ws h = period_ws-Leaves u w s i r p inside h roomy
  time_step-Leaves time_period_ws_offset h =
      period_ws_offset-Leaves u w s i r p inside sound.0.0 h roomy
  time_step-Leaves time_period_ws_offset_ws_alpha h =
      period_alpha-Leaves u w s i r p inside sound.0.0 h roomy
  time_step-Leaves time_period_ws_offset_colon h = period_ws_colon-Leaves u w s i r p inside h roomy
  time_step-Leaves time_z h = z-Leaves u w s i r p inside h roomy
  time_step-Leaves _ h = grind arith

-- Behind the loop.
abbrev pub LeavesRoom : Words → Outcome Error Stop → Type 0
LeavesRoom w (ok (behind t j q)) = HasWords w q × LastRoom q.state_time (length w.month) q
LeavesRoom w _ = Unit

Roomy-Last :
    (w : Words) (s : Bytes) (i : ℕ) (p : Parser)
    → Roomy w s i p
    → LastRoom p.state_time (length w.month) p
Roomy-Last w s i p h = go p.state_time refl
  where
    go : (at : TimeState) → p.state_time ≡ at → LastRoom at (length w.month) p
    go _ e = ground arith

-- What one turn leads to, with a loop behind it.
module _ (w : Words) (more : Bytes → ℤ → Parser → Outcome Error Stop)
    (ends : (s : Bytes) (i : ℕ) (p : Parser)
      → length s < two_63
      → Sound s i p
      → Roomy w s i p
      → LeavesRoom w (more s (pos i) p)) where
  turn-LeavesRoom :
      (s : Bytes) (i : ℕ) (x : Step)
      → length s < two_63
      → Good s i x
      → Leaves w s x
      → LeavesRoom w (continued more s x)
  turn-LeavesRoom s i (next (pos k) q) short f g = ends s (k + 1) q short f.1 g
  turn-LeavesRoom s i (next (negsuc zero) q) short f g = absurd (omega (arith, f.0))
  turn-LeavesRoom s i (next (negsuc (suc k)) q) short f g = elim f [ ]
  turn-LeavesRoom s i (leave j q) short f g = g
  turn-LeavesRoom s i (swap t (pos k) q) short f g =
      let (on, size, less) = f in ends t (k + 1) q (omega (arith, size)) on.1 g
  turn-LeavesRoom s i (swap t (negsuc zero) q) short f g = absurd (omega (arith, f.0.0))
  turn-LeavesRoom s i (swap t (negsuc (suc k)) q) short f g = elim f.0 [ ]
  turn-LeavesRoom s i (gives found) short f g = elim f [ ]
  turn-LeavesRoom s i (again local text kept) short f g = tt
  turn-LeavesRoom s i crash short f g = elim f [ ]

pub time_loop-LeavesRoom :
    (u : Tables) (w : Words) (n : ℕ) (s : Bytes) (i : ℕ) (p : Parser)
    → length s < two_63
    → Sound s i p
    → Roomy w s i p
    → LeavesRoom w (loop (time_turn u) n s (pos i) p)
unfolding loop time_turn
time_loop-LeavesRoom u w zero s i p short sound roomy = tt
time_loop-LeavesRoom u w (suc n) s i p short sound roomy = elim (Bool-cases (ltb i (length s))) [
  | inr e ↦ rw (e, loop) (roomy.0, Roomy-Last w s i p roomy)
  | inl e ↦
      rw (e, loop)
        (turn-LeavesRoom w (loop (time_turn u) n) (λ t j q. time_loop-LeavesRoom u w n t j q) s i
          (time_turn u s i p) short (time_turn-Good u s i p (omega tests) short sound)
          (time_step-Leaves u w s i (get_or s i 0) p (omega tests) sound roomy p.state_time refl))
]
