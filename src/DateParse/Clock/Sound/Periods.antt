-- ===== src/DateParse/Clock/Sound/Periods.antt =====
-- The turns of the time loop below a second, and behind a `Z`, keep the invariant.
use watchmaker.Prelude.{ℕ, ◌+◌, ◌-◌, ◌≡◌, ◌≤◌, ◌<◌, ap, arith, length, ◌∙◌}
use watchmaker.Prelude.Int.{pos, sub_ℕ, ◌-ℤ◌}
use watchmaker.Go.Text.{Bytes}
use watchmaker.Go.Words.{two_63, wrap64}
use watchmaker.DateParse.States.{
  time_period, time_period_offset, time_period_offset_colon, time_period_ws, time_period_ws_offset,
  time_period_ws_offset_ws_alpha, time_period_ws_offset_colon, time_z,
}
use watchmaker.DateParse.Fields.{Parser, to_nat}
use watchmaker.DateParse.Runes.{Tables}
use watchmaker.DateParse.Steps.{minus}
use watchmaker.DateParse.Date.Fine.{IsIndex}
use watchmaker.DateParse.Clock.Kept.{set-Kept, minus-pos, minus-msi, finish}
use watchmaker.DateParse.Clock.Sound.{Part, Sound, Good}
use watchmaker.DateParse.Clock.Zones.{trim_at, monotonic}
use watchmaker.DateParse.Clock.Sound.Zones.{trim_at-Good}
use watchmaker.DateParse.Clock.Periods.{
  period_step, period_offset_step, period_colon_step, period_ws_step, period_ws_offset_step,
  period_alpha_step, period_ws_colon_step, z_step,
}

-- The distance from the start to the character in front of this one.
minus_one-msi :
    (i : ℕ) (p : Parser)
    → IsIndex p.msi
    → to_nat p.msi + 1 ≤ i
    → i < two_63
    → wrap64 (minus i p.msi -ℤ pos 1) ≡ pos (i - to_nat p.msi - 1)
minus_one-msi i p h g l =
    ap (λ z. wrap64 (z -ℤ pos 1)) (minus-msi i p h (omega arith) l)
    ∙ minus-pos (i - to_nat p.msi) 1 (omega arith) (omega arith)

-- What holds of a state still holds when the text is cut.
offset-kept :
    (s : Bytes) (i : ℕ) (p q : Parser)
    → finish p + 2 ≤ i
    → p.state_time ≡ time_period_ws_offset
    → q.msi ≡ p.msi
    → q.mslen ≡ p.mslen
    → q.state_time ≡ p.state_time
    → Part q.state_time s (i + 1) q
offset-kept s i p q h o a b c = ground arith

alpha-kept :
    (s : Bytes) (i : ℕ) (p q : Parser)
    → finish p + 3 ≤ i
    → p.state_time ≡ time_period_ws_offset_ws_alpha
    → q.msi ≡ p.msi
    → q.mslen ≡ p.mslen
    → q.state_time ≡ p.state_time
    → Part q.state_time s (i + 1) q
alpha-kept s i p q h o a b c = ground arith

module _ (u : Tables) (s : Bytes) (i r : ℕ) (p : Parser) (inside : i < length s)
    (short : length s < two_63) where
  pub period-Good : p.state_time ≡ time_period → Sound s i p → Good s i (period_step u i r p)
  unfolding period_step
  period-Good h g = ground (arith, minus-msi i p g.0.1 (ground arith) (omega arith))

  pub period_ws-Good :
      p.state_time ≡ time_period_ws → Sound s i p → Good s i (period_ws_step u i r p)
  unfolding period_ws_step
  period_ws-Good h g = ground (arith, minus_one-msi i p g.0.1 (ground arith) (omega arith))

module _ (u : Tables) (s : Bytes) (i r : ℕ) (p : Parser) where
  pub period_offset-Good :
      p.state_time ≡ time_period_offset → Sound s i p → Good s i (period_offset_step i r p)
  unfolding period_offset_step
  period_offset-Good h g = ground arith

  pub period_colon-Good :
      p.state_time ≡ time_period_offset_colon → Sound s i p → Good s i (period_colon_step i r p)
  unfolding period_colon_step
  period_colon-Good h g = grind (arith, set-Kept)

  pub period_ws_colon-Good :
      p.state_time ≡ time_period_ws_offset_colon
      → Sound s i p
      → Good s i (period_ws_colon_step u i r p)
  unfolding period_ws_colon_step
  period_ws_colon-Good h g = grind (arith, set-Kept)

  pub z-Good : p.state_time ≡ time_z → Sound s i p → Good s i (z_step u i r p)
  unfolding z_step
  z-Good h g = ground arith

  sign_again-Good :
      p.state_time ≡ time_period_ws_offset → Sound s i p → Good s i (trim_at (sub_ℕ i 1) i p)
  sign_again-Good h g =
      trim_at-Good s (sub_ℕ i 1) i p g.0 (ground arith) (λ q. offset-kept s i p q (ground arith) h)

  pub period_ws_offset-Good :
      p.state_time ≡ time_period_ws_offset → Sound s i p → Good s i (period_ws_offset_step u i r p)
  unfolding period_ws_offset_step
  period_ws_offset-Good h g = grind (arith, set-Kept, sign_again-Good h g)

  pub period_alpha-Good :
      p.state_time ≡ time_period_ws_offset_ws_alpha
      → Sound s i p
      → Good s i (period_alpha_step s i r p)
  unfolding period_alpha_step monotonic
  period_alpha-Good h g = ground (
    arith,
    trim_at-Good s (sub_ℕ i 2) i p g.0 (ground arith) (λ q. alpha-kept s i p q (ground arith) h),
  )
