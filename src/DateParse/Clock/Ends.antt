-- ===== src/DateParse/Clock/Ends.antt =====
-- A whole turn of the time loop, and the loop: it ends, and nothing in it panics.
use watchmaker.Prelude.{
  ℕ, zero, suc, ◌+◌, ◌≡◌, ◌≤◌, ◌<◌, ◌∙◌, refl, Bool-cases, inl, inr, ltb, arith, tests, length,
  get_or,
}
use watchmaker.Prelude.Int.{ℤ, pos, negsuc}
use watchmaker.Prelude.Outcome.{Outcome, ok, fail, panic, hung}
use watchmaker.Go.Text.{Bytes}
use watchmaker.Go.Words.{two_63}
use watchmaker.Errors.{Error}
use watchmaker.DateParse.States.{
  time_start, time_ws, time_ws_alpha, time_ws_alpha_zone_offset, time_ws_alpha_zone_offset_ws,
  time_ws_alpha_zone_offset_ws_year, time_ws_ampm_maybe, time_ws_offset, time_ws_offset_ws,
  time_ws_offset_colon, time_offset, time_period, time_period_offset, time_period_offset_colon,
  time_period_ws, time_period_ws_offset, time_period_ws_offset_ws_alpha,
  time_period_ws_offset_colon, time_z, TimeState,
}
use watchmaker.DateParse.Fields.{Parser}
use watchmaker.DateParse.Runes.{Tables}
use watchmaker.DateParse.Weight.{weight}
use watchmaker.DateParse.Steps.{Step, next, leave, swap, gives, again, crash}
use watchmaker.DateParse.Loop.{gave, calls, Stop, behind, replies, continued, loop}
use watchmaker.DateParse.Clock.Turn.{time_step, time_turn}
use watchmaker.DateParse.Clock.Sound.{Sound, Good, Common, Done}
use watchmaker.DateParse.Clock.Sound.Start.{time_start-Good}
use watchmaker.DateParse.Clock.Sound.Zones.{
  offset-Good, ws-Good, ws_alpha-Good, zone_offset-Good, zone_offset_ws-Good, zone_year-Good,
  ampm-Good, ws_offset-Good, ws_offset_ws-Good, ws_offset_colon-Good,
}
use watchmaker.DateParse.Clock.Sound.Periods.{
  period-Good, period_ws-Good, period_offset-Good, period_colon-Good, period_ws_colon-Good, z-Good,
  period_ws_offset-Good, period_alpha-Good,
}

module _ (u : Tables) (s : Bytes) (i r : ℕ) (p : Parser) where
  time_step-Good :
      (at : TimeState)
      → p.state_time ≡ at
      → i < length s
      → length s < two_63
      → Sound s i p
      → r ≡ get_or s i 0
      → Good s i (time_step at u s i r p)
  unfolding time_step
  time_step-Good time_start h l short g e = time_start-Good s i r p l short h g e
  time_step-Good time_offset h l short g e = offset-Good u s i r p h g
  time_step-Good time_ws h l short g e = ws-Good u s i r p h g
  time_step-Good time_ws_alpha h l short g e = ws_alpha-Good u s i r p h g
  time_step-Good time_ws_alpha_zone_offset h l short g e = zone_offset-Good u s i r p h g
  time_step-Good time_ws_alpha_zone_offset_ws h l short g e = zone_offset_ws-Good u s i r p h g
  time_step-Good time_ws_alpha_zone_offset_ws_year h l short g e = zone_year-Good u s i r p h g
  time_step-Good time_ws_ampm_maybe h l short g e = ampm-Good u s i r p h g
  time_step-Good time_ws_offset h l short g e = ws_offset-Good u s i r p h g
  time_step-Good time_ws_offset_ws h l short g e = ws_offset_ws-Good u s i r p h g
  time_step-Good time_ws_offset_colon h l short g e = ws_offset_colon-Good u s i r p h g
  time_step-Good time_period h l short g e = period-Good u s i r p l short h g
  time_step-Good time_period_offset h l short g e = period_offset-Good u s i r p h g
  time_step-Good time_period_offset_colon h l short g e = period_colon-Good u s i r p h g
  time_step-Good time_period_ws h l short g e = period_ws-Good u s i r p l short h g
  time_step-Good time_period_ws_offset h l short g e = period_ws_offset-Good u s i r p h g
  time_step-Good time_period_ws_offset_ws_alpha h l short g e = period_alpha-Good u s i r p h g
  time_step-Good time_period_ws_offset_colon h l short g e = period_ws_colon-Good u s i r p h g
  time_step-Good time_z h l short g e = z-Good u s i r p h g
  time_step-Good _ h l short g e = ground arith

pub time_turn-Good :
    (u : Tables) (s : Bytes) (i : ℕ) (p : Parser)
    → i < length s
    → length s < two_63
    → Sound s i p
    → Good s i (time_turn u s i p)
unfolding time_turn
time_turn-Good u s i p l short g =
    time_step-Good u s i (get_or s i 0) p p.state_time refl l short g refl

-- How the loop ends: `datestr` keeps its length.
abbrev pub Finished : Bytes → Outcome Error Stop → Type 0
Finished s (ok (behind t j q)) =
    (length t ≡ length s) × (weight t ≤ weight s) × Common q × Done q.state_time t j q
Finished s (ok (replies (gave t f))) = ⊥
Finished s (ok (replies (calls local text kept))) =
    (weight text + 1 ≤ weight s) × (weight local ≤ weight s)
Finished s (fail e) = ⊥
Finished s panic = ⊥
Finished s hung = ⊥

Finished-swap :
    (s t : Bytes) (x : Outcome Error Stop)
    → length t ≡ length s
    → weight t ≤ weight s
    → Finished t x
    → Finished s x
Finished-swap s t (ok (behind v j q)) h g f = (f.0 ∙ h, omega arith, f.2, f.3)
Finished-swap s t (ok (replies (gave v f))) h g e = e
Finished-swap s t (ok (replies (calls local text kept))) h g f = (omega arith, omega arith)
Finished-swap s t (fail e) h g f = f
Finished-swap s t panic h g f = f
Finished-swap s t hung h g f = f

-- The loop is left at an index behind the text.
Sound-Done :
    (s : Bytes) (i : ℕ) (p : Parser) → length s ≤ i → Sound s i p → Done p.state_time s (pos i) p
Sound-Done s i p h g = go p.state_time refl
  where
    go : (at : TimeState) → p.state_time ≡ at → Done at s (pos i) p
    go _ e = ground arith

-- What one turn leads to, with a loop behind it.
module _ (more : Bytes → ℤ → Parser → Outcome Error Stop) (n : ℕ)
    (ends : (s : Bytes) (i : ℕ) (p : Parser)
      → 1 ≤ n
      → length s + 1 ≤ n + i
      → length s < two_63
      → Sound s i p
      → Finished s (more s (pos i) p)) where
  turn-Finished :
      (s : Bytes) (i : ℕ) (x : Step)
      → i < length s
      → length s ≤ n + i
      → length s < two_63
      → Good s i x
      → Finished s (continued more s x)
  turn-Finished s i (next (pos k) q) h g short f =
      ends s (k + 1) q (omega arith) (omega arith) short f.1
  turn-Finished s i (next (negsuc zero) q) h g short f = absurd (omega (arith, f.0))
  turn-Finished s i (next (negsuc (suc k)) q) h g short f = elim f [ ]
  turn-Finished s i (leave j q) h g short f = (refl, omega arith, f.0, f.1)
  turn-Finished s i (swap t (pos k) q) h g short f =
      let (on, size, less) = f in
      Finished-swap s t (more t (pos (k + 1)) q) size less
        (ends t (k + 1) q (omega arith) (omega (arith, size, on.0)) (omega (arith, size)) on.1)
  turn-Finished s i (swap t (negsuc zero) q) h g short f = absurd (omega (arith, f.0.0))
  turn-Finished s i (swap t (negsuc (suc k)) q) h g short f = elim f.0 [ ]
  turn-Finished s i (gives found) h g short f = elim f [ ]
  turn-Finished s i (again local text kept) h g short f = f
  turn-Finished s i crash h g short f = elim f [ ]

-- The time loop ends on fuel for the bytes that are left.
pub time_loop-Finished :
    (u : Tables) (n : ℕ) (s : Bytes) (i : ℕ) (p : Parser)
    → 1 ≤ n
    → length s + 1 ≤ n + i
    → length s < two_63
    → Sound s i p
    → Finished s (loop (time_turn u) n s (pos i) p)
unfolding loop
time_loop-Finished u zero s i p h g short sound = elim h [ ]
time_loop-Finished u (suc n) s i p h g short sound = elim (Bool-cases (ltb i (length s))) [
  | inr e ↦ rw (e, loop) (refl, omega arith, sound.0, Sound-Done s i p (ground arith) sound)
  | inl e ↦
      rw (e, loop)
        (turn-Finished (loop (time_turn u) n) n (λ t j q. time_loop-Finished u n t j q) s i
          (time_turn u s i p) (omega tests) (omega arith) short
          (time_turn-Good u s i p (omega tests) short sound))
]
