-- ===== src/DateParse/Clock/Sound/Start.antt =====
-- The turns of the time loop at its start keep the invariant.
use watchmaker.Prelude.{ℕ, ◌≡◌, ◌<◌, inl, inr, Bool-cases, arith, length, get_or}
use watchmaker.Prelude.Int.{pos}
use watchmaker.Go.Text.{Bytes, codes}
use watchmaker.Go.Words.{two_63}
use watchmaker.DateParse.States.{time_start, time_ws, TimeState}
use watchmaker.DateParse.Fields.{Parser, next_is, equals}
use watchmaker.DateParse.Time.{coalesce_time}
use watchmaker.DateParse.Steps.{next, after}
use watchmaker.DateParse.Weight.{weight-comma, weight-colon, length-colon}
use watchmaker.DateParse.Clock.Start.{
  comma_for_period, sign_after, sign_start, zulu, half_of_day, letter_a, letter_p, third_colon,
  time_colon, start_case, time_start_step,
}
use watchmaker.DateParse.Clock.Kept.{set-Kept, minus-msi, coalesce_time-Returns}
use watchmaker.DateParse.Clock.Sound.{Part, Sound, Good}

module _ (s : Bytes) (i r : ℕ) (p : Parser) (inside : i < length s) (short : length s < two_63)
    (state : p.state_time ≡ time_start) (sound : Sound s i p) where
  comma-Good : get_or s i 0 ≡ b',' → Good s i (comma_for_period s i p)
  unfolding comma_for_period
  comma-Good h = ground (arith, weight-comma p.datestr i (ground arith) (ground arith))

  sign-Good : Good s i (next (pos i) (sign_start i p))
  unfolding sign_start sign_after
  sign-Good = ground (arith, minus-msi i p sound.0.1 (ground arith) (omega arith))

  zulu-Good : Good s i (next (pos i) (zulu i p))
  unfolding zulu
  zulu-Good = ground arith

  half-Good : (mark : Bytes) → Good s i (half_of_day mark i p)
  unfolding half_of_day
  half-Good mark =
      let (q, returns, kept) = coalesce_time-Returns (pos i) p sound.0.2 in
      rw (returns, half_of_day) (ground (arith, set-Kept (pos i) mark q))

  space-Good :
      Good s i
        (after (coalesce_time (pos i) p) (λ q. next (pos i) (record q { state_time = time_ws })))
  space-Good =
      let (q, returns, kept) = coalesce_time-Returns (pos i) p sound.0.2 in
      rw returns (ground arith)

  colon-Good : get_or s i 0 ≡ b':' → Good s i (time_colon s i p)
  unfolding time_colon third_colon
  colon-Good h = grind (arith, set-Kept, weight-colon s i inside h, length-colon s i inside)

  letter_a-Good : Good s i (letter_a i r p)
  unfolding letter_a next_is
  letter_a-Good = ground (arith, half-Good (codes "am"), half-Good (codes "PM"))

  letter_p-Good : Good s i (letter_p i r p)
  unfolding letter_p
  letter_p-Good = ground (arith, half-Good (codes "pm"), half-Good (codes "PM"))

  start_case-Good : r ≡ get_or s i 0 → Good s i (start_case s i r p)
  unfolding start_case
  start_case-Good h = ground (
    arith, comma-Good, sign-Good, zulu-Good, letter_a-Good, letter_p-Good, space-Good, colon-Good,
  )

houri-Sound :
    (s : Bytes) (i : ℕ) (p : Parser)
    → p.state_time ≡ time_start
    → Sound s i p
    → Sound s i (record p { houri = pos i })
houri-Sound s i p h g = (g.0, part p.state_time h g.1)
  where
    part :
        (at : TimeState)
        → at ≡ time_start
        → Part at s i p
        → Part at s i (record p { houri = pos i })
    part time_start h g = g
    part _ h g = absurd (cc)

pub time_start-Good :
    (s : Bytes) (i r : ℕ) (p : Parser)
    → i < length s
    → length s < two_63
    → p.state_time ≡ time_start
    → Sound s i p
    → r ≡ get_or s i 0
    → Good s i (time_start_step s i r p)
unfolding time_start_step
time_start-Good s i r p inside short state sound h = elim (Bool-cases (equals p.houri 0)) [
  | inl e ↦
      let q = record p { houri = pos i } in
      rw (e, time_start_step)
        (start_case-Good s i r q inside short state (houri-Sound s i p state sound) h)
  | inr e ↦ rw (e, time_start_step) (start_case-Good s i r p inside short state sound h)
]
