-- ===== src/Offset/CommandLine.antt =====
-- `CalculateOffset` of a number with a unit, as it is written on the command line.
use watchmaker.Prelude.{
  ℕ, zero, suc, ◌+◌, ◌-◌, ◌%◌, ◌/◌, ◌^◌, ◌<◌, ◌≤◌, ◌≡◌, ◌≢◌, refl, sym, ap, ◌∙◌, [], ◌∷◌, ◌++◌, map,
  true, false, Bool-cases, inl, inr, none, arith, length, length-append, get_or, Option,
}
use watchmaker.Prelude.Int.{ℤ, pos, ◌*ℤ◌}
use watchmaker.Prelude.Outcome.{ok}
use watchmaker.Go.Text.{Bytes, codes, equal, eq_of_equal, to_lower, lower}
use watchmaker.DateParse.Runes.{Tables, is_ascii, lower_text}
use watchmaker.Go.Words.{two_63, IsInt64}
use watchmaker.Offset.{is_no_offset, parse_units, calculate_offset}
use watchmaker.Offset.Laws.{IsUnit, seconds, minutes, hours, days, years}
use watchmaker.Offset.Decimal.{Sign, plus, minus, bare, decimal, signed, value}
use watchmaker.Offset.Units.{text, length-text, get_or-unit, parse_units-text}

length-decimal : (w n : ℕ) → length (decimal w n) ≡ w
length-decimal zero n = refl
length-decimal (suc w) n =
    length-append (decimal w (n / 10)) ((b'0' + n % 10) ∷ [])
    ∙ omega (arith, length-decimal w (n / 10))

lower-append : (s t : Bytes) → map lower (s ++ t) ≡ map lower s ++ map lower t
lower-append [] t = refl
lower-append (c ∷ s) t = ap (◌∷◌ (lower c)) (lower-append s t)

lower-decimal : (w n : ℕ) → map lower (decimal w n) ≡ decimal w n
lower-decimal zero n = refl
lower-decimal (suc w) n =
    lower-append (decimal w (n / 10)) ((b'0' + n % 10) ∷ [])
    ∙ ap (λ s. s ++ lower (b'0' + n % 10) ∷ []) (lower-decimal w (n / 10))
    ∙ ap (λ c. decimal w (n / 10) ++ c ∷ []) (ground arith)

lower-signed :
    (sign : Sign) (w n : ℕ) → map lower (signed sign (decimal w n)) ≡ signed sign (decimal w n)
lower-signed plus w n = ap (◌∷◌ b'+') (lower-decimal w n)
lower-signed minus w n = ap (◌∷◌ b'-') (lower-decimal w n)
lower-signed bare w n = lower-decimal w n

lower-unit : (unit ns : ℕ) → IsUnit unit ns → lower unit ≡ unit
lower-unit unit ns seconds = refl
lower-unit unit ns minutes = refl
lower-unit unit ns hours = refl
lower-unit unit ns days = refl
lower-unit unit ns years = refl

unit-ne : (unit ns : ℕ) → IsUnit unit ns → unit ≢ b'l'
unit-ne unit ns seconds = omega arith
unit-ne unit ns minutes = omega arith
unit-ne unit ns hours = omega arith
unit-ne unit ns days = omega arith
unit-ne unit ns years = omega arith

length-signed : (sign : Sign) (w n : ℕ) → 0 < w → 0 < length (signed sign (decimal w n))
length-signed plus w n h = omega arith
length-signed minus w n h = omega arith
length-signed bare w n h = omega (arith, length-decimal w n)

is_ascii-append : (s t : Bytes) → is_ascii s ≡ true → is_ascii t ≡ true → is_ascii (s ++ t) ≡ true
unfolding is_ascii
is_ascii-append [] t h g = g
is_ascii-append (c ∷ s) t h g = ground (arith, is_ascii-append s t)

is_ascii-decimal : (w n : ℕ) → is_ascii (decimal w n) ≡ true
unfolding is_ascii
is_ascii-decimal zero n = refl
is_ascii-decimal (suc w) n =
    is_ascii-append (decimal w (n / 10)) _ (is_ascii-decimal w (n / 10)) (ground arith)

is_ascii-signed : (sign : Sign) (s : Bytes) → is_ascii s ≡ true → is_ascii (signed sign s) ≡ true
unfolding is_ascii
is_ascii-signed plus s h = h
is_ascii-signed minus s h = h
is_ascii-signed bare s h = h

is_ascii-unit : (unit ns : ℕ) → IsUnit unit ns → is_ascii (unit ∷ []) ≡ true
unfolding is_ascii
is_ascii-unit unit ns seconds = refl
is_ascii-unit unit ns minutes = refl
is_ascii-unit unit ns hours = refl
is_ascii-unit unit ns days = refl
is_ascii-unit unit ns years = refl

module _ (sign : Sign) (w n unit ns : ℕ) (is_unit : IsUnit unit ns) (some_digit : 0 < w)
    (wide : n < 10 ^ w) (fits : n < two_63) where
  abbrev given : Bytes
  given = text sign w n unit

  long : 1 < length given
  long = omega (
    arith,
    length-append (signed sign (decimal w n)) (unit ∷ []),
    length-signed sign w n some_digit,
  )

  last_byte : get_or given (length given - 1) 0 ≡ unit
  last_byte =
      ap (λ m. get_or given m 0) (length-text sign w n unit ns is_unit some_digit wide fits)
      ∙ get_or-unit sign w n unit ns is_unit some_digit wide fits (signed sign (decimal w n))

  not_null : equal given (codes "null") ≡ false
  not_null = elim (Bool-cases (equal given (codes "null"))) [
    | inr h ↦ h
    | inl h ↦
        let same = eq_of_equal given (codes "null") h in
        let clash : unit ≡ b'l' = sym last_byte ∙ ap (λ s. get_or s (length s - 1) 0) same in
        absurd (unit-ne unit ns is_unit clash)
  ]

  not_short : (s : Bytes) → length s ≤ 1 → equal given s ≡ false
  not_short s h = elim (Bool-cases (equal given s)) [
    | inr e ↦ e
    | inl e ↦ let size = ap length (eq_of_equal given s e) in absurd (omega (arith, long))
  ]

  is_no_offset-text : is_no_offset given ≡ false
  is_no_offset-text =
      rw (not_short [] (omega arith), not_short (codes "0") (omega arith), not_null) refl

  to_lower-text : to_lower given ≡ given
  unfolding to_lower
  to_lower-text =
      lower-append (signed sign (decimal w n)) (unit ∷ [])
      ∙ ap (λ s. s ++ lower unit ∷ []) (lower-signed sign w n)
      ∙ ap (λ c. signed sign (decimal w n) ++ c ∷ []) (lower-unit unit ns is_unit)

  is_ascii-text : is_ascii given ≡ true
  is_ascii-text =
      is_ascii-append (signed sign (decimal w n)) (unit ∷ [])
        (is_ascii-signed sign (decimal w n) (is_ascii-decimal w n)) (is_ascii-unit unit ns is_unit)

  lower_text-text : (u : Tables) → lower_text u given ≡ given
  unfolding lower_text
  lower_text-text u = rw (is_ascii-text, lower_text) to_lower-text

  -- Where the text is no date, `calculate_offset` is the number times the nanoseconds of the unit.
  pub calculate_offset-units :
      (u : Tables) (parse_date : Bytes → Option ℤ) (now later : ℤ)
      → parse_date given ≡ none
      → IsInt64 (value sign n *ℤ pos ns)
      → calculate_offset u parse_date now later given ≡ ok (value sign n *ℤ pos ns)
  unfolding calculate_offset
  calculate_offset-units u parse_date now later no_date product =
      rw (is_no_offset-text, no_date, calculate_offset)
        (ap parse_units (lower_text-text u)
          ∙ parse_units-text sign w n unit ns is_unit some_digit wide fits product)
