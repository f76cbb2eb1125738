-- ===== src/Offset/Laws.antt =====
-- What the offset of the command line comes to.
use watchmaker.Prelude.{ℕ, ◌<◌, ◌≤◌, ◌≡◌, ap, ◌∙◌, arith}
use watchmaker.Prelude.Int.{ℤ, pos, negsuc, ◌-ℤ◌, ◌*ℤ◌}
use watchmaker.Go.Words.{wrap64, IsInt64, int64-uint64}
use watchmaker.Offset.{hour, nanosecond, time_sub, scale, offset_of_date}

-- The nanoseconds of a unit.
pub data IsUnit : ℕ → ℕ → Type 0 where
  seconds : IsUnit b's' 1_000_000_000
  minutes : IsUnit b'm' 60_000_000_000
  hours : IsUnit b'h' 3_600_000_000_000
  days : IsUnit b'd' 86_400_000_000_000
  years : IsUnit b'y' 31_536_000_000_000_000

day_fits : (v : ℤ) → IsInt64 (v *ℤ pos 86_400_000_000_000) → IsInt64 (v *ℤ pos 24)
unfolding ◌*ℤ◌
day_fits (pos n) h = ground arith
day_fits (negsuc n) h = ground arith

day_product : (v : ℤ) → v *ℤ pos 24 *ℤ hour ≡ v *ℤ pos 86_400_000_000_000
unfolding ◌*ℤ◌
day_product (pos n) = ground arith
day_product (negsuc n) = ground arith

year_fits :
    (v : ℤ)
    → IsInt64 (v *ℤ pos 31_536_000_000_000_000)
    → IsInt64 (v *ℤ pos 365) × IsInt64 (v *ℤ pos 365 *ℤ pos 24)
unfolding ◌*ℤ◌
year_fits (pos n) h = ground arith
year_fits (negsuc n) h = ground arith

year_product : (v : ℤ) → v *ℤ pos 365 *ℤ pos 24 *ℤ hour ≡ v *ℤ pos 31_536_000_000_000_000
unfolding ◌*ℤ◌
year_product (pos n) = ground arith
year_product (negsuc n) = ground arith

-- Where the number times the nanoseconds of its unit fits into 64 bits, `scale` returns that
-- product.
pub scale-exact :
    (unit n : ℕ) (v : ℤ) → IsUnit unit n → IsInt64 (v *ℤ pos n) → scale unit v ≡ v *ℤ pos n
unfolding scale
scale-exact unit n v seconds fits = int64-uint64 (v *ℤ pos n) fits
scale-exact unit n v minutes fits = int64-uint64 (v *ℤ pos n) fits
scale-exact unit n v hours fits = int64-uint64 (v *ℤ pos n) fits
scale-exact unit n v days fits =
    ap (λ x. wrap64 (x *ℤ hour)) (int64-uint64 (v *ℤ pos 24) (day_fits v fits))
    ∙ ap wrap64 (day_product v)
    ∙ int64-uint64 (v *ℤ pos n) fits
scale-exact unit n v years fits =
    let (fit_days, fit_hours) = year_fits v fits in
    ap (λ x. wrap64 (wrap64 (x *ℤ pos 24) *ℤ hour)) (int64-uint64 (v *ℤ pos 365) fit_days)
    ∙ ap (λ x. wrap64 (x *ℤ hour)) (int64-uint64 (v *ℤ pos 365 *ℤ pos 24) fit_hours)
    ∙ ap wrap64 (year_product v)
    ∙ int64-uint64 (v *ℤ pos n) fits

time_sub-exact : (t u : ℤ) → IsInt64 (t -ℤ u) → time_sub t u ≡ t -ℤ u
unfolding time_sub
time_sub-exact t u h = ground arith

-- If the date's part below a second is not above that of `now`, the first reading of the clock,
-- `offset_of_date` returns the distance from `later`, the second reading, to the date. The
-- condition is that the distance fits into 64 bits.
pub offset_of_date-exact :
    (now later t : ℤ)
    → IsInt64 (t -ℤ later)
    → nanosecond t ≤ nanosecond now
    → offset_of_date now later t ≡ t -ℤ later
unfolding offset_of_date
offset_of_date-exact now later t fits h = ground (arith, time_sub-exact t later fits)

-- If the date's part below a second is above that of `now`, `offset_of_date` returns the distance
-- from the date to `later`, whichever of them is earlier: the opposite of the offset that leads to
-- the date. The condition is that the distance fits into 64 bits.
pub offset_of_date-turned :
    (now later t : ℤ)
    → IsInt64 (later -ℤ t)
    → nanosecond now < nanosecond t
    → offset_of_date now later t ≡ later -ℤ t
unfolding offset_of_date
offset_of_date-turned now later t fits h = ground (arith, time_sub-exact later t fits)
