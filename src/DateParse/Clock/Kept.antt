-- ===== src/DateParse/Clock/Kept.antt =====
-- What the methods that the time loop calls leave alone, and that they return.
use watchmaker.Prelude.{
  ℕ, ◌+◌, ◌-◌, ◌≡◌, ◌≤◌, ◌<◌, inl, inr, refl, ◌∙◌, false, Bool-cases, arith, ltb, ◌&&◌, ◌==◌,
  if◌then◌else◌, length, take, length-take,
}
use watchmaker.Prelude.Int.{ℤ, pos, negsuc, ◌-ℤ◌}
use watchmaker.Prelude.Outcome.{Outcome, ok}
use watchmaker.Go.Text.{Bytes, codes}
use watchmaker.Go.Words.{two_63, int64, uint64}
use watchmaker.Errors.{Error}
use watchmaker.DateParse.Fields.{Parser, set, set_year, is_above_zero, to_nat}
use watchmaker.DateParse.Time.{
  coalesce_hour, coalesce_minute, coalesce_second, coalesce_fraction, coalesce_time, zero_digits,
  trim_extra,
}
use watchmaker.DateParse.Steps.{minus}
use watchmaker.DateParse.Aligned.{IsAligned}
use watchmaker.DateParse.Fraction.{zero_digits-ok}
use watchmaker.DateParse.Date.Month.{set-words}
use watchmaker.DateParse.Date.Fine.{Same, IsIndex, Stays, set-Same, set-Stays}

abbrev pub Kept : Parser → Parser → Type 0
Kept p q =
    Same p q
    × Stays p q
    × (q.offseti ≡ p.offseti)
    × (q.full_month ≡ p.full_month)
    × (q.skip ≡ p.skip)

set-offseti : (start : ℤ) (val : Bytes) (p : Parser) → (set start val p).offseti ≡ p.offseti
unfolding set
set-offseti (negsuc n) val p = refl
set-offseti (pos n) val p = ground arith

pub set-Kept : (start : ℤ) (val : Bytes) (p : Parser) → Kept p (set start val p)
set-Kept start val p =
    let words = set-words start val p in
    (set-Same start val p, set-Stays start val p, set-offseti start val p, words.0, words.1)

pub set_year-Kept : (p : Parser) → Kept p (set_year p)
unfolding set_year
set_year-Kept p = ground (arith, set-Kept p.yeari (codes "06") p, set-Kept p.yeari (codes "2006") p)

coalesce_hour-Kept : (p : Parser) → Kept p (coalesce_hour p)
unfolding coalesce_hour
coalesce_hour-Kept p =
    ground (arith, set-Kept p.houri (codes "15") p, set-Kept p.houri (codes "3") p)

coalesce_minute-Kept : (end : ℤ) (p : Parser) → Kept p (coalesce_minute end p)
unfolding coalesce_minute
coalesce_minute-Kept end p = grind (arith, set-Kept)

coalesce_second-Kept : (end : ℤ) (p : Parser) → Kept p (coalesce_second end p)
unfolding coalesce_second
coalesce_second-Kept end p = grind (arith, set-Kept)

-- The end of the part below a second, if it has a length.
abbrev pub finish : Parser → ℕ
finish p = if to_nat p.mslen == 0 then 0 else to_nat p.msi + to_nat p.mslen

-- A call that returns a parser with these fields kept.
abbrev pub Returns : Parser → Outcome Error Parser → Type 0
Returns p r = (q : Parser) × (r ≡ ok q) × Kept p q

zero_digits-finish :
    (p : Parser)
    → finish p ≤ length p.format
    → (digits : Bytes) × (zero_digits (to_nat p.mslen) (to_nat p.msi) p.format ≡ ok digits)
      × (length digits ≡ length p.format)
unfolding zero_digits
zero_digits-finish p inside = elim (Bool-cases (to_nat p.mslen == 0)) [
  | inl h ↦
      let none_there : to_nat p.mslen ≡ 0 = ground arith in rw none_there (p.format, refl, refl)
  | inr h ↦ zero_digits-ok (to_nat p.mslen) (to_nat p.msi) p.format (ground arith)
]

Kept-trans : (p q r : Parser) → Kept p q → Kept q r → Kept p r
Kept-trans p q r h g = (
  (g.0.0 ∙ h.0.0, g.0.1 ∙ h.0.1, g.0.2 ∙ h.0.2, g.0.3 ∙ h.0.3, g.0.4 ∙ h.0.4),
  (g.1.0 ∙ h.1.0, g.1.1 ∙ h.1.1),
  g.2 ∙ h.2,
  g.3 ∙ h.3,
  g.4 ∙ h.4,
)

finish-Kept : (p q : Parser) → Kept p q → finish p ≤ length p.format → finish q ≤ length q.format
finish-Kept p q h inside = ground arith

coalesce_fraction-Returns :
    (p : Parser) → finish p ≤ length p.format → Returns p (coalesce_fraction p)
unfolding coalesce_fraction
coalesce_fraction-Returns p inside = elim (Bool-cases (is_above_zero p.msi)) [
  | inr h ↦ rw (h, coalesce_fraction) (p, refl, ground arith)
  | inl h ↦
      let (digits, returns, size) = zero_digits-finish p inside in
      rw (h, coalesce_fraction, returns) (record p { format = digits }, refl, ground arith)
]

pub coalesce_time-Returns :
    (end : ℤ) (p : Parser) → finish p ≤ length p.format → Returns p (coalesce_time end p)
unfolding coalesce_time
coalesce_time-Returns end p inside =
    let h = coalesce_hour p in
    let m = coalesce_minute end h in
    let s = coalesce_second end m in
    let kept : Kept p s =
      Kept-trans p h s (coalesce_hour-Kept p)
        (Kept-trans h m s (coalesce_minute-Kept end h) (coalesce_second-Kept end m)) in
    let (q, returns, same) = coalesce_fraction-Returns s (finish-Kept p s kept inside) in
    (q, returns, Kept-trans p s q kept same)

-- What is left behind `trim_extra`: an end that lies in the layout and before `extra` still does.
pub trim_extra-Returns :
    (p : Parser) (end : ℕ)
    → IsAligned p
    → end ≤ length p.format
    → end ≤ to_nat p.extra
    → (q : Parser) × (trim_extra p ≡ ok q)
      × IsAligned q
      × (end ≤ length q.format)
      × (q.msi ≡ p.msi)
      × (q.mslen ≡ p.mslen)
      × (q.offseti ≡ p.offseti)
      × Stays p q
      × (q.full_month ≡ p.full_month)
      × (q.skip ≡ p.skip)
unfolding trim_extra
trim_extra-Returns p end same inside before =
    let extra = to_nat p.extra in
    elim (Bool-cases (is_above_zero p.extra && ltb extra (length p.format))) [
      | inr h ↦
          rw (h, trim_extra) (p, refl, same, inside, refl, refl, refl, (refl, refl), refl, refl)
      | inl h ↦
          let fits : ltb (length p.datestr) extra ≡ false = ground arith in
          let sizes : (length (take extra p.format) ≡ length (take extra p.datestr))
              × (end ≤ length (take extra p.format)) =
            ground (arith, length-take extra p.format, length-take extra p.datestr) in
          rw (h, fits, trim_extra)
            (
              record p { format = take extra p.format; datestr = take extra p.datestr },
              refl,
              sizes.0,
              sizes.1,
              refl,
              refl,
              refl,
              (refl, refl),
              refl,
              refl,
            )
    ]

-- A difference of positions does not wrap.
pub minus-pos : (i m : ℕ) → m ≤ i → i < two_63 → minus i (pos m) ≡ pos (i - m)
unfolding int64 uint64 ◌-ℤ◌
minus-pos i m h g = ground arith

-- The distance from the start of the part below a second.
pub minus-msi :
    (i : ℕ) (p : Parser)
    → IsIndex p.msi
    → to_nat p.msi ≤ i
    → i < two_63
    → minus i p.msi ≡ pos (i - to_nat p.msi)
minus-msi i p = go p.msi
  where
    go : (m : ℤ) → IsIndex m → to_nat m ≤ i → i < two_63 → minus i m ≡ pos (i - to_nat m)
    go (pos m) h g l = minus-pos i m g l
    go (negsuc m) h g l = elim h [ ]
