-- ===== src/Offset/Units.antt =====
-- A number with a unit on the command line.
use watchmaker.Prelude.{
  ℕ, ◌-◌, ◌^◌, ◌<◌, ◌≤◌, ◌≡◌, refl, ap, ◌∙◌, [], ◌∷◌, ◌++◌, Bool, none, some, arith, length,
  length-append, take, take-append, get_or,
}
use watchmaker.Prelude.Int.{pos, ◌*ℤ◌}
use watchmaker.Prelude.Outcome.{ok}
use watchmaker.Go.Text.{Bytes, Free}
use watchmaker.Go.Strconv.{digit, with_sign, atoi}
use watchmaker.Go.Words.{two_63, IsInt64}
use watchmaker.Maps.Hex.{Free-append}
use watchmaker.Offset.{value_of, parse_units, scale}
use watchmaker.Offset.Laws.{IsUnit, seconds, minutes, hours, days, years, scale-exact}
use watchmaker.Offset.Decimal.{
  Sign, plus, minus, bare, negates, decimal, Free-decimal, parse_uint-decimal, parse_uint-unit,
  signed, value, atoi-signed, with_sign-value,
}

-- The text of a number with a sign and a unit.
abbrev pub text : Sign → ℕ → ℕ → ℕ → Bytes
text sign w n unit = signed sign (decimal w n) ++ unit ∷ []

digit-unit : (unit ns : ℕ) → IsUnit unit ns → (d : ℕ) × (digit unit ≡ some d) × (10 ≤ d)
unfolding digit
digit-unit unit ns seconds = (28, refl, omega arith)
digit-unit unit ns minutes = (22, refl, omega arith)
digit-unit unit ns hours = (17, refl, omega arith)
digit-unit unit ns days = (13, refl, omega arith)
digit-unit unit ns years = (34, refl, omega arith)

Free-unit : (sep unit ns : ℕ) → IsUnit unit ns → sep < b'0' → Free sep (unit ∷ [])
Free-unit sep unit ns seconds h = (omega arith, tt)
Free-unit sep unit ns minutes h = (omega arith, tt)
Free-unit sep unit ns hours h = (omega arith, tt)
Free-unit sep unit ns days h = (omega arith, tt)
Free-unit sep unit ns years h = (omega arith, tt)

text-signed :
    (sign : Sign) (w n unit : ℕ) → text sign w n unit ≡ signed sign (decimal w n ++ unit ∷ [])
text-signed plus w n unit = refl
text-signed minus w n unit = refl
text-signed bare w n unit = refl

with_sign-none : (neg : Bool) → with_sign neg none ≡ none
unfolding with_sign
with_sign-none neg = refl

module _ (sign : Sign) (w n unit ns : ℕ) (is_unit : IsUnit unit ns) (some_digit : 0 < w)
    (wide : n < 10 ^ w) (fits : n < two_63) where
  pub atoi-text : atoi (text sign w n unit) ≡ none
  atoi-text =
      let (d, is_digit, large) = digit-unit unit ns is_unit in
      ap atoi (text-signed sign w n unit)
      ∙ atoi-signed sign (decimal w n ++ unit ∷ [])
          (Free-append b'+' (decimal w n) (unit ∷ []) (Free-decimal b'+' w n (omega arith))
            (Free-unit b'+' unit ns is_unit (omega arith)))
          (Free-append b'-' (decimal w n) (unit ∷ []) (Free-decimal b'-' w n (omega arith))
            (Free-unit b'-' unit ns is_unit (omega arith)))
      ∙ ap (with_sign (negates sign)) (parse_uint-unit w n unit d is_digit large wide (omega arith))
      ∙ with_sign-none (negates sign)

  atoi-number : atoi (signed sign (decimal w n)) ≡ some (value sign n)
  atoi-number =
      atoi-signed sign (decimal w n) (Free-decimal b'+' w n (omega arith))
        (Free-decimal b'-' w n (omega arith))
      ∙ ap (with_sign (negates sign)) (parse_uint-decimal w n some_digit wide (omega arith))
      ∙ with_sign-value sign n fits

  pub length-text : length (text sign w n unit) - 1 ≡ length (signed sign (decimal w n))
  length-text = omega (arith, length-append (signed sign (decimal w n)) (unit ∷ []))

  value_of-text : value_of (text sign w n unit) ≡ some (value sign n)
  unfolding value_of
  value_of-text =
      rw (atoi-text, value_of)
        (ap (λ m. atoi (take m (text sign w n unit))) length-text
          ∙ ap atoi (take-append (signed sign (decimal w n)) (unit ∷ []))
          ∙ atoi-number)

  pub get_or-unit : (s : Bytes) → get_or (s ++ unit ∷ []) (length s) 0 ≡ unit
  get_or-unit [] = refl
  get_or-unit (c ∷ s) = get_or-unit s

  -- A sign or none, at least one decimal digit and a unit are read as the number times the nanoseconds of
  -- the unit. The conditions are that the number fits into 63 bits and the product into 64.
  pub parse_units-text :
      IsInt64 (value sign n *ℤ pos ns)
      → parse_units (text sign w n unit) ≡ ok (value sign n *ℤ pos ns)
  unfolding parse_units
  parse_units-text product =
      rw (value_of-text, parse_units)
        (ap (λ m. ok (scale (get_or (text sign w n unit) m 0) (value sign n))) length-text
          ∙ ap (λ u. ok (scale u (value sign n))) (get_or-unit (signed sign (decimal w n)))
          ∙ ap ok (scale-exact unit ns (value sign n) is_unit product))
