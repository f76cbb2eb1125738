-- ===== src/DateParse/Clock/Sound/Zones.antt =====
-- The turns of the time loop behind a space keep the invariant.
use watchmaker.Prelude.{ℕ, ◌+◌, ◌≡◌, ◌≤◌, ◌⊎◌, inl, inr, refl, arith}
use watchmaker.Prelude.Int.{ℤ, sub_ℕ}
use watchmaker.Go.Text.{Bytes}
use watchmaker.DateParse.States.{
  time_ws, time_ws_alpha, time_ws_alpha_zone_offset, time_ws_alpha_zone_offset_ws,
  time_ws_alpha_zone_offset_ws_year, time_ws_ampm_maybe, time_ws_offset, time_ws_offset_ws,
  time_ws_offset_colon, time_offset,
}
use watchmaker.DateParse.Fields.{Parser, to_nat}
use watchmaker.DateParse.Runes.{Tables}
use watchmaker.DateParse.Clock.Kept.{set-Kept, set_year-Kept, finish, trim_extra-Returns}
use watchmaker.DateParse.Clock.Sound.{Part, Sound, Good, NoFraction, Common}
use watchmaker.DateParse.Clock.Zones.{
  offset_step, ws_step, ws_alpha_step, zone_offset_step, zone_offset_ws_step, zone_year_step,
  ampm_step, ws_offset_step, trim_at, monotonic, ws_offset_ws_step, ws_offset_colon_step,
}

module _ (u : Tables) (s : Bytes) (i r : ℕ) (p : Parser) where
  pub offset-Good : p.state_time ≡ time_offset → Sound s i p → Good s i (offset_step i r p)
  unfolding offset_step
  offset-Good h g = ground arith

  pub ws-Good : p.state_time ≡ time_ws → Sound s i p → Good s i (ws_step u i r p)
  unfolding ws_step
  ws-Good h g = ground arith

  pub ws_alpha-Good : p.state_time ≡ time_ws_alpha → Sound s i p → Good s i (ws_alpha_step i r p)
  unfolding ws_alpha_step
  ws_alpha-Good h g = grind (arith, set-Kept)

  pub zone_offset-Good :
      p.state_time ≡ time_ws_alpha_zone_offset → Sound s i p → Good s i (zone_offset_step i r p)
  unfolding zone_offset_step
  zone_offset-Good h g = grind (arith, set-Kept)

  pub zone_offset_ws-Good :
      p.state_time ≡ time_ws_alpha_zone_offset_ws
      → Sound s i p
      → Good s i (zone_offset_ws_step u i r p)
  unfolding zone_offset_ws_step
  zone_offset_ws-Good h g = ground arith

  pub zone_year-Good :
      p.state_time ≡ time_ws_alpha_zone_offset_ws_year
      → Sound s i p
      → Good s i (zone_year_step u i r p)
  unfolding zone_year_step
  zone_year-Good h g = grind (arith, set_year-Kept)

  pub ampm-Good : p.state_time ≡ time_ws_ampm_maybe → Sound s i p → Good s i (ampm_step i r p)
  unfolding ampm_step
  ampm-Good h g = grind (arith, set-Kept)

  pub ws_offset-Good : p.state_time ≡ time_ws_offset → Sound s i p → Good s i (ws_offset_step i r p)
  unfolding ws_offset_step
  ws_offset-Good h g = grind (arith, set-Kept)

-- The text is cut behind the part below a second, and what holds of the state stays.
pub trim_at-Good :
    (s : Bytes) (extra : ℤ) (i : ℕ) (p : Parser)
    → Common p
    → finish p ≤ to_nat extra
    → ((q : Parser)
        → q.msi ≡ p.msi
        → q.mslen ≡ p.mslen
        → q.state_time ≡ p.state_time
        → Part q.state_time s (i + 1) q)
    → Good s i (trim_at extra i p)
unfolding trim_at
trim_at-Good s extra i p (same, place, inside) before part =
    let (q, returns, aligned, fits, start, count, offset, states, month, skip) =
      trim_extra-Returns (record p { extra = extra }) (finish p) same inside before in
    rw (returns, trim_at)
      (omega arith, ((aligned, ground arith, ground arith), part q start count states.1))

-- The state behind a cut in which there is no part below a second.
NoFraction-kept :
    (s : Bytes) (i : ℕ) (p q : Parser)
    → NoFraction i p
    → (p.state_time ≡ time_ws_offset) ⊎ (p.state_time ≡ time_ws_offset_ws)
    → q.msi ≡ p.msi
    → q.mslen ≡ p.mslen
    → q.state_time ≡ p.state_time
    → Part q.state_time s (i + 1) q
NoFraction-kept s i p q h o a b c = ground arith

module _ (u : Tables) (s : Bytes) (i r : ℕ) (p : Parser) where
  monotonic_ws-Good : p.state_time ≡ time_ws_offset_ws → Sound s i p → Good s i (monotonic s i p)
  unfolding monotonic
  monotonic_ws-Good h g = grind (
    arith,
    trim_at-Good s (sub_ℕ i 2) i p g.0 (ground arith)
        (λ q. NoFraction-kept s i p q (ground arith) (inr h)),
  )

  cut-Good :
      p.state_time ≡ time_ws_offset_ws
      → Sound s i p
      → Good s i (trim_at (sub_ℕ i 1) i (record p { state_time = time_ws_offset }))
  cut-Good h g =
      let q = record p { state_time = time_ws_offset } in
      trim_at-Good s (sub_ℕ i 1) i q g.0 (ground arith)
        (λ t. NoFraction-kept s i q t (ground arith) (inl refl))

  pub ws_offset_ws-Good :
      p.state_time ≡ time_ws_offset_ws → Sound s i p → Good s i (ws_offset_ws_step u s i r p)
  unfolding ws_offset_ws_step
  ws_offset_ws-Good h g = grind (arith, set_year-Kept, monotonic_ws-Good h g, cut-Good h g)

  pub ws_offset_colon-Good :
      p.state_time ≡ time_ws_offset_colon → Sound s i p → Good s i (ws_offset_colon_step u i r p)
  unfolding ws_offset_colon_step
  ws_offset_colon-Good h g = ground arith
