-- ===== src/DateParse/Clock/Room/Periods.antt =====
-- The turns of the time loop below a second leave room for the name of a month.
use watchmaker.Prelude.{ℕ, ◌+◌, ◌≡◌, ◌<◌, ◌⊎◌, inl, inr, arith, length}
use watchmaker.Prelude.Int.{sub_ℕ}
use watchmaker.Go.Text.{Bytes}
use watchmaker.DateParse.States.{
  time_period, time_period_offset, time_period_offset_colon, time_period_ws, time_period_ws_offset,
  time_period_ws_offset_ws_alpha, time_period_ws_offset_colon, time_z,
}
use watchmaker.DateParse.Fields.{Parser}
use watchmaker.DateParse.Runes.{Tables}
use watchmaker.DateParse.Aligned.{IsAligned}
use watchmaker.DateParse.Clock.Kept.{set-Kept}
use watchmaker.DateParse.Clock.Room.{Words, Behind, Roomy, Leaves}
use watchmaker.DateParse.Clock.Zones.{trim_at, monotonic}
use watchmaker.DateParse.Clock.Room.Zones.{trim_at-Leaves}
use watchmaker.DateParse.Clock.Periods.{
  period_step, period_ws_step, period_offset_step, period_colon_step, period_ws_colon_step, z_step,
  period_ws_offset_step, period_alpha_step,
}

module _ (u : Tables) (w : Words) (s : Bytes) (i r : ℕ) (p : Parser) (inside : i < length s) where
  pub period-Leaves : p.state_time ≡ time_period → Roomy w s i p → Leaves w s (period_step u i r p)
  unfolding period_step
  period-Leaves h g = ground arith

  pub period_ws-Leaves :
      p.state_time ≡ time_period_ws → Roomy w s i p → Leaves w s (period_ws_step u i r p)
  unfolding period_ws_step
  period_ws-Leaves h g = ground arith

  pub period_offset-Leaves :
      p.state_time ≡ time_period_offset → Roomy w s i p → Leaves w s (period_offset_step i r p)
  unfolding period_offset_step
  period_offset-Leaves h g = ground arith

  pub period_colon-Leaves :
      p.state_time ≡ time_period_offset_colon → Roomy w s i p → Leaves w s (period_colon_step i r p)
  unfolding period_colon_step
  period_colon-Leaves h g = grind (arith, set-Kept)

  pub period_ws_colon-Leaves :
      p.state_time ≡ time_period_ws_offset_colon
      → Roomy w s i p
      → Leaves w s (period_ws_colon_step u i r p)
  unfolding period_ws_colon_step
  period_ws_colon-Leaves h g = grind (arith, set-Kept)

  pub z-Leaves : p.state_time ≡ time_z → Roomy w s i p → Leaves w s (z_step u i r p)
  unfolding z_step
  z-Leaves h g = ground arith

fraction-Behind :
    (s : Bytes) (m i : ℕ) (p q : Parser)
    → Behind p.state_time m s i p
    → (p.state_time ≡ time_period_ws_offset) ⊎ (p.state_time ≡ time_period_ws_offset_ws_alpha)
    → q.state_time ≡ p.state_time
    → Behind q.state_time m s (i + 1) q
fraction-Behind s m i p q h o c = ground arith

module _ (u : Tables) (w : Words) (s : Bytes) (i r : ℕ) (p : Parser) (inside : i < length s)
    (same : IsAligned p) where
  sign_again-Leaves :
      p.state_time ≡ time_period_ws_offset → Roomy w s i p → Leaves w s (trim_at (sub_ℕ i 1) i p)
  sign_again-Leaves h g =
      trim_at-Leaves w s (sub_ℕ i 1) i p same g.0 (ground arith)
        (λ q. fraction-Behind s (length w.month) i p q g.1 (inl h))

  pub period_ws_offset-Leaves :
      p.state_time ≡ time_period_ws_offset
      → Roomy w s i p
      → Leaves w s (period_ws_offset_step u i r p)
  unfolding period_ws_offset_step
  period_ws_offset-Leaves h g = grind (arith, set-Kept, sign_again-Leaves h g)

  pub period_alpha-Leaves :
      p.state_time ≡ time_period_ws_offset_ws_alpha
      → Roomy w s i p
      → Leaves w s (period_alpha_step s i r p)
  unfolding period_alpha_step monotonic
  period_alpha-Leaves h g = ground (
    arith,
    trim_at-Leaves w s (sub_ℕ i 2) i p same g.0 (ground arith)
        (λ q. fraction-Behind s (length w.month) i p q g.1 (inr h)),
  )
