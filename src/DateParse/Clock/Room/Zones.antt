-- ===== src/DateParse/Clock/Room/Zones.antt =====
-- The turns of the time loop behind a space leave room for the name of a month.
use watchmaker.Prelude.{ℕ, ◌+◌, ◌≡◌, ◌≤◌, ◌<◌, ◌⊎◌, inl, inr, refl, arith, length, ◌∙◌}
use watchmaker.Prelude.Int.{ℤ, sub_ℕ}
use watchmaker.Go.Text.{Bytes}
use watchmaker.DateParse.States.{
  time_ws, time_ws_alpha, time_ws_alpha_zone_offset, time_ws_alpha_zone_offset_ws,
  time_ws_alpha_zone_offset_ws_year, time_ws_ampm_maybe, time_ws_offset, time_ws_offset_ws,
  time_ws_offset_colon, time_offset,
}
use watchmaker.DateParse.Fields.{Parser, to_nat}
use watchmaker.DateParse.Runes.{Tables}
use watchmaker.DateParse.Aligned.{IsAligned}
use watchmaker.DateParse.Clock.Kept.{set-Kept, set_year-Kept, trim_extra-Returns}
use watchmaker.DateParse.Clock.Room.{Words, HasWords, Behind, Roomy, Leaves}
use watchmaker.DateParse.Clock.Zones.{
  offset_step, ws_step, ws_alpha_step, zone_offset_step, zone_offset_ws_step, zone_year_step,
  ampm_step, ws_offset_step, ws_offset_colon_step, trim_at, monotonic, ws_offset_ws_step,
}

module _ (u : Tables) (w : Words) (s : Bytes) (i r : ℕ) (p : Parser) (inside : i < length s) where
  pub offset-Leaves : p.state_time ≡ time_offset → Roomy w s i p → Leaves w s (offset_step i r p)
  unfolding offset_step
  offset-Leaves h g = ground arith

  pub ws-Leaves : p.state_time ≡ time_ws → Roomy w s i p → Leaves w s (ws_step u i r p)
  unfolding ws_step
  ws-Leaves h g = ground arith

  pub ws_alpha-Leaves :
      p.state_time ≡ time_ws_alpha → Roomy w s i p → Leaves w s (ws_alpha_step i r p)
  unfolding ws_alpha_step
  ws_alpha-Leaves h g = grind (arith, set-Kept)

  pub zone_offset-Leaves :
      p.state_time ≡ time_ws_alpha_zone_offset → Roomy w s i p → Leaves w s (zone_offset_step i r p)
  unfolding zone_offset_step
  zone_offset-Leaves h g = grind (arith, set-Kept)

  pub zone_offset_ws-Leaves :
      p.state_time ≡ time_ws_alpha_zone_offset_ws
      → Roomy w s i p
      → Leaves w s (zone_offset_ws_step u i r p)
  unfolding zone_offset_ws_step
  zone_offset_ws-Leaves h g = ground arith

  pub zone_year-Leaves :
      p.state_time ≡ time_ws_alpha_zone_offset_ws_year
      → Roomy w s i p
      → Leaves w s (zone_year_step u i r p)
  unfolding zone_year_step
  zone_year-Leaves h g = grind (arith, set_year-Kept)

  pub ampm-Leaves : p.state_time ≡ time_ws_ampm_maybe → Roomy w s i p → Leaves w s (ampm_step i r p)
  unfolding ampm_step
  ampm-Leaves h g = grind (arith, set-Kept)

  pub ws_offset-Leaves :
      p.state_time ≡ time_ws_offset → Roomy w s i p → Leaves w s (ws_offset_step i r p)
  unfolding ws_offset_step
  ws_offset-Leaves h g = grind (arith, set-Kept)

  pub ws_offset_colon-Leaves :
      p.state_time ≡ time_ws_offset_colon
      → Roomy w s i p
      → Leaves w s (ws_offset_colon_step u i r p)
  unfolding ws_offset_colon_step
  ws_offset_colon-Leaves h g = ground arith

-- The text is cut behind the name.
pub trim_at-Leaves :
    (w : Words) (s : Bytes) (extra : ℤ) (i : ℕ) (p : Parser)
    → IsAligned p
    → HasWords w p
    → length w.month ≤ to_nat extra
    → ((q : Parser)
        → q.state_time ≡ p.state_time
        → Behind q.state_time (length w.month) s (i + 1) q)
    → Leaves w s (trim_at extra i p)
unfolding trim_at
trim_at-Leaves w s extra i p same words before behind =
    let (q, returns, aligned, fits, start, count, offset, states, month, skip) =
      trim_extra-Returns (record p { extra = extra }) (length w.month) same words.3 before in
    rw (returns, trim_at)
      ((month ∙ words.0, skip ∙ words.1, states.0 ∙ words.2, fits), behind q states.1)

-- The state behind a cut.
offset-Behind :
    (s : Bytes) (m i : ℕ) (p q : Parser)
    → m + 3 ≤ i
    → (p.state_time ≡ time_ws_offset) ⊎ (p.state_time ≡ time_ws_offset_ws)
    → q.state_time ≡ p.state_time
    → Behind q.state_time m s (i + 1) q
offset-Behind s m i p q h o c = ground arith

module _ (u : Tables) (w : Words) (s : Bytes) (i r : ℕ) (p : Parser) (inside : i < length s)
    (same : IsAligned p) where
  cut-Leaves :
      p.state_time ≡ time_ws_offset_ws
      → Roomy w s i p
      → Leaves w s (trim_at (sub_ℕ i 1) i (record p { state_time = time_ws_offset }))
  cut-Leaves h g =
      let q = record p { state_time = time_ws_offset } in
      trim_at-Leaves w s (sub_ℕ i 1) i q same g.0 (ground arith)
        (λ t. offset-Behind s (length w.month) i q t (ground arith) (inl refl))

  monotonic_ws-Leaves :
      p.state_time ≡ time_ws_offset_ws → Roomy w s i p → Leaves w s (monotonic s i p)
  unfolding monotonic
  monotonic_ws-Leaves h g = grind (
    arith,
    trim_at-Leaves w s (sub_ℕ i 2) i p same g.0 (ground arith)
        (λ t. offset-Behind s (length w.month) i p t (ground arith) (inr h)),
  )

  pub ws_offset_ws-Leaves :
      p.state_time ≡ time_ws_offset_ws → Roomy w s i p → Leaves w s (ws_offset_ws_step u s i r p)
  unfolding ws_offset_ws_step
  ws_offset_ws-Leaves h g = grind (arith, set_year-Kept, monotonic_ws-Leaves h g, cut-Leaves h g)
