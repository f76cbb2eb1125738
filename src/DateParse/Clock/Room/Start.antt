-- ===== src/DateParse/Clock/Room/Start.antt =====
-- The turns of the time loop at its start leave room for the name of a month.
use watchmaker.Prelude.{ℕ, ◌≡◌, ◌<◌, inl, inr, arith, length, Bool-cases}
use watchmaker.Prelude.Int.{pos}
use watchmaker.Go.Text.{Bytes, codes}
use watchmaker.DateParse.States.{time_start, time_ws}
use watchmaker.DateParse.Fields.{Parser, equals, next_is}
use watchmaker.DateParse.Time.{coalesce_time}
use watchmaker.DateParse.Steps.{next, after}
use watchmaker.DateParse.Weight.{length-colon}
use watchmaker.DateParse.Clock.Kept.{set-Kept, coalesce_time-Returns}
use watchmaker.DateParse.Clock.Sound.{Common}
use watchmaker.DateParse.Clock.Room.{Words, Roomy, Leaves}
use watchmaker.DateParse.Clock.Start.{
  comma_for_period, sign_after, sign_start, zulu, half_of_day, letter_a, letter_p, third_colon,
  time_colon, start_case, time_start_step,
}

module _ (w : Words) (s : Bytes) (i r : ℕ) (p : Parser) (inside : i < length s) (common : Common p)
    (state : p.state_time ≡ time_start) (roomy : Roomy w s i p) where
  comma-Leaves : Leaves w s (comma_for_period s i p)
  unfolding comma_for_period
  comma-Leaves = ground arith

  sign-Leaves : Leaves w s (next (pos i) (sign_start i p))
  unfolding sign_start sign_after
  sign-Leaves = ground arith

  zulu-Leaves : Leaves w s (next (pos i) (zulu i p))
  unfolding zulu
  zulu-Leaves = ground arith

  half-Leaves : (mark : Bytes) → Leaves w s (half_of_day mark i p)
  unfolding half_of_day
  half-Leaves mark =
      let (q, returns, kept) = coalesce_time-Returns (pos i) p common.2 in
      rw (returns, half_of_day) (ground (arith, set-Kept (pos i) mark q))

  space-Leaves :
      Leaves w s
        (after (coalesce_time (pos i) p) (λ q. next (pos i) (record q { state_time = time_ws })))
  space-Leaves =
      let (q, returns, kept) = coalesce_time-Returns (pos i) p common.2 in rw returns (ground arith)

  colon-Leaves : Leaves w s (time_colon s i p)
  unfolding time_colon third_colon
  colon-Leaves = grind (arith, set-Kept, length-colon s i inside)

  letter_a-Leaves : Leaves w s (letter_a i r p)
  unfolding letter_a next_is
  letter_a-Leaves = ground (arith, half-Leaves (codes "am"), half-Leaves (codes "PM"))

  letter_p-Leaves : Leaves w s (letter_p i r p)
  unfolding letter_p
  letter_p-Leaves = ground (arith, half-Leaves (codes "pm"), half-Leaves (codes "PM"))

  start_case-Leaves : Leaves w s (start_case s i r p)
  unfolding start_case
  start_case-Leaves = ground (
    arith, comma-Leaves, sign-Leaves, zulu-Leaves, letter_a-Leaves, letter_p-Leaves, space-Leaves,
    colon-Leaves,
  )

houri-Roomy :
    (w : Words) (s : Bytes) (i : ℕ) (p : Parser)
    → p.state_time ≡ time_start
    → Roomy w s i p
    → Roomy w s i (record p { houri = pos i })
houri-Roomy w s i p h g = (g.0, ground arith)

pub time_start-Leaves :
    (w : Words) (s : Bytes) (i r : ℕ) (p : Parser)
    → i < length s
    → Common p
    → p.state_time ≡ time_start
    → Roomy w s i p
    → Leaves w s (time_start_step s i r p)
unfolding time_start_step
time_start-Leaves w s i r p inside common state roomy = elim (Bool-cases (equals p.houri 0)) [
  | inl e ↦
      let q = record p { houri = pos i } in
      rw (e, time_start_step)
        (start_case-Leaves w s i r q inside common state (houri-Roomy w s i p state roomy))
  | inr e ↦ rw (e, time_start_step) (start_case-Leaves w s i r p inside common state roomy)
]
