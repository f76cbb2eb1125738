-- ===== src/Offset/Numbers.antt =====
-- `CalculateOffset` with the package's own date parser: a number with a unit is no date.
use watchmaker.Prelude.{
  ℕ, zero, suc, ◌+◌, ◌-◌, ◌^◌, ◌<◌, ◌≤◌, ◌≡◌, refl, ap, ◌∙◌, sym, [], ◌∷◌, ◌++◌, Bool, true, false,
  ltb, ◌==◌, if◌then◌else◌, none, arith, length, length-append, get_or,
}
use watchmaker.Prelude.Int.{ℤ, pos, ◌*ℤ◌}
use watchmaker.Prelude.Outcome.{Outcome, ok, fail}
use watchmaker.Go.Text.{Bytes, codes}
use watchmaker.Go.Words.{two_63, IsInt64}
use watchmaker.Go.Strconv.{atoi}
use watchmaker.Errors.{Error}
use watchmaker.Offset.{calculate_offset}
use watchmaker.Offset.Laws.{IsUnit, seconds, minutes, hours, days, years}
use watchmaker.Offset.Decimal.{Sign, plus, minus, bare, decimal, value}
use watchmaker.Offset.Units.{text, atoi-text}
use watchmaker.Offset.CommandLine.{calculate_offset-units}
use watchmaker.Offset.Dated.{parsed_date, without_error}
use watchmaker.DateParse.{
  Reader, Parser, new_parser, apply_options, coalesce_date, bind, parse, with_full_month,
  without_skip,
}
use watchmaker.DateParse.Runes.{Tables, decode_rune, is_digit, is_letter}
use watchmaker.DateParse.Steps.{Found, next}
use watchmaker.DateParse.Loop.{behind, gave, loop}
use watchmaker.DateParse.Date.Digits.{digit_step}
use watchmaker.DateParse.Date.Turn.{date_step, date_turn}
use watchmaker.DateParse.Date.End.{date_end, digits_end, scaled, seconds_since, at_time}
use watchmaker.DateParse.Whole.{parse_once, behind_date}
use watchmaker.DateParse.Exported.{then_parse, parse_date_any}
use watchmaker.DateParse.Given.{parse_time-fuel}
use watchmaker.DateParse.Refused.{parse_date_any-refused}
use watchmaker.DateParse.Runs.{
  IsDigit, AllDigits, DigitsAt, date_turn-ascii, loop-start, loop-digits, loop-next, loop-behind,
}
use watchmaker.DateParse.Stamps.{read_digits, decimal-AllDigits, length-decimal}

abbrev pub IsError : {A : Type 0} → Outcome Error A → Type 0
IsError {A = A} x = (e : Error) × (x ≡ fail e)

-- A reader that refuses digits with a unit behind them in a layout of digits, as `time.Parse` does:
-- the unit is extra text.
abbrev pub RefusesUnits : Reader → Type 0
RefusesUnits read =
    (layout s : Bytes) (unit ns : ℕ)
    → IsUnit unit ns
    → AllDigits layout
    → AllDigits s
    → IsError (read none layout (s ++ unit ∷ []))

unit-ascii : (unit ns : ℕ) → IsUnit unit ns → (b'a' ≤ unit) × (unit < 128)
unit-ascii unit ns seconds = (omega arith, omega arith)
unit-ascii unit ns minutes = (omega arith, omega arith)
unit-ascii unit ns hours = (omega arith, omega arith)
unit-ascii unit ns days = (omega arith, omega arith)
unit-ascii unit ns years = (omega arith, omega arith)

digit_step-unit :
    (u : Tables) (s : Bytes) (i unit : ℕ) (p : Parser)
    → b'a' ≤ unit
    → unit < 128
    → digit_step u s i unit p ≡ next (pos i) p
unfolding digit_step
digit_step-unit u s i unit p h g = ground arith

front-DigitsAt :
    (k : ℕ) (s t : Bytes) (i : ℕ) → AllDigits s → i + k ≤ length s → DigitsAt (s ++ t) i k
front-DigitsAt zero s t i h g = tt
front-DigitsAt (suc k) s t i h g = (
  omega (arith, length-append s t),
  front-IsDigit s t i h (omega arith),
  front-DigitsAt k s t (i + 1) h (omega arith),
)
  where
    front-IsDigit :
        (s t : Bytes) (i : ℕ) → AllDigits s → i < length s → IsDigit (get_or (s ++ t) i 0)
    front-IsDigit [] t i h g = absurd (omega arith)
    front-IsDigit (c ∷ s) t zero h g = h.0
    front-IsDigit (c ∷ s) t (suc i) h g = front-IsDigit s t i h.1 (omega arith)

get_or-end : (s : Bytes) (c : ℕ) → get_or (s ++ c ∷ []) (length s) 0 ≡ c
get_or-end [] c = refl
get_or-end (x ∷ s) c = get_or-end s c

module _ (u : Tables) (front : Bytes) (unit ns : ℕ) (digits : AllDigits front)
    (some_digit : 0 < length front) (is_unit : IsUnit unit ns) where
  abbrev number : Bytes
  number = front ++ unit ∷ []

  size : length number ≡ length front + 1
  size = length-append front (unit ∷ [])

  unit_turn :
      date_turn u number (length front) (read_digits number)
      ≡ next (pos (length front)) (read_digits number)
  unfolding date_step
  unit_turn =
      let at_end = get_or-end front unit in
      let (low, high) = unit-ascii unit ns is_unit in
      let p = read_digits number in
      date_turn-ascii u number (length front) p (omega (arith, size)) (omega (arith, at_end, high))
      ∙ ap (λ r. digit_step u number (length front) r p) at_end
      ∙ digit_step-unit u number (length front) unit p low high

  whole_run :
      loop (date_turn u) (length number + 2) number (pos 0) (new_parser number none [])
      ≡ ok (behind number (pos (length number)) (read_digits number))
  unfolding new_parser apply_options
  whole_run =
      let k = length front - 1 in
      let p = read_digits number in
      let at = front-DigitsAt k front (unit ∷ []) 1 digits (omega arith) in
      let first = front-DigitsAt 1 front (unit ∷ []) 0 digits (omega arith) in
      ap (λ m. loop (date_turn u) m number (pos 0) (new_parser number none []))
        (omega (arith, size))
      ∙ loop-start u (k + 3) number (new_parser number none []) refl (omega (arith, size)) first.1
      ∙ loop-digits u k 3 number 1 p tt at
      ∙ ap (λ j. loop (date_turn u) 3 number (pos j) p) (omega arith)
      ∙ loop-next (date_turn u) 2 number (length front) p p (omega (arith, size)) unit_turn
      ∙ ap (λ j. loop (date_turn u) 2 number (pos j) p) (sym size)
      ∙ loop-behind (date_turn u) 1 number p

  number_once :
      parse_once u number (new_parser number none [])
      ≡ ok (gave number (digits_end number (read_digits number)))
  unfolding parse_once behind_date new_parser apply_options coalesce_date date_end
  number_once = rw (whole_run) refl

  parse_date_any-number :
      (read : Reader)
      → parse_date_any u read number []
        ≡ then_parse (parse read) (digits_end number (read_digits number))
  unfolding parse_date_any new_parser apply_options
  parse_date_any-number read =
      ap (λ x. bind x (then_parse (parse read)))
        (parse_time-fuel u read number number none [] (digits_end number (read_digits number))
          number_once refl)

-- A test of which both cases are errors.
if-IsError :
    (b : Bool) (read : Reader) (f g : Found)
    → IsError (then_parse (parse read) f)
    → IsError (then_parse (parse read) g)
    → IsError (then_parse (parse read) (if b then f else g))
if-IsError true read f g h k = h
if-IsError false read f g h k = k

-- A text that is no number, and no date in a layout of digits.
digits_end-IsError :
    (read : Reader) (s : Bytes)
    → atoi s ≡ none
    → ((layout : Bytes) → AllDigits layout → IsError (read none layout s))
    → IsError (then_parse (parse read) (digits_end s (read_digits s)))
unfolding digits_end scaled seconds_since at_time then_parse parse with_full_month without_skip
    new_parser apply_options
digits_end-IsError read s no_number refuses =
    let n = length s in
    rw (no_number) (
      if-IsError (n == 19) read _ _ (_, refl)
        (if-IsError (n == 16) read _ _ (_, refl)
          (if-IsError (n == 14) read _ _ (refuses (codes "20060102150405") (ground arith)) (
            if-IsError (n == 13) read _ _ (_, refl)
              (if-IsError (n == 10) read _ _ (_, refl)
                (if-IsError (n == 8) read _ _ (refuses (codes "20060102") (ground arith)) (
                  if-IsError (n == 4) read _ _ (refuses (codes "2006") (ground arith))
                    (if-IsError (ltb n 4) read _ _ (_, refl) (_, refl)))))))))

error-none : (x : Outcome Error ℤ) → IsError x → without_error x ≡ none
error-none x (e, h) = ap without_error h

module _ (u : Tables) (read : Reader) (w n unit ns : ℕ) (is_unit : IsUnit unit ns)
    (some_digit : 0 < w) (wide : n < 10 ^ w) (fits : n < two_63) (refuses : RefusesUnits read) where
  -- With a sign the text starts with neither a digit nor a letter; without one it is read as a date
  -- of digits.
  no_date : (sign : Sign) → parsed_date u read (text sign w n unit) ≡ none
  unfolding parsed_date is_digit is_letter decode_rune
  no_date plus =
      error-none (parse_date_any u read (text plus w n unit) [])
        (_, parse_date_any-refused u read (text plus w n unit) (refl, refl))
  no_date minus =
      error-none (parse_date_any u read (text minus w n unit) [])
        (_, parse_date_any-refused u read (text minus w n unit) (refl, refl))
  no_date bare =
      let front = decimal w n in
      let digits = decimal-AllDigits w n in
      let s = front ++ unit ∷ [] in
      ap without_error (
        parse_date_any-number u front unit ns digits (omega (arith, length-decimal w n)) is_unit
          read)
      ∙ error-none (then_parse (parse read) (digits_end s (read_digits s))) (
          digits_end-IsError read s (atoi-text bare w n unit ns is_unit some_digit wide fits)
            (λ layout all. refuses layout front unit ns is_unit all digits))

  -- `calculate_offset`, with the package's date parser, of a number with a unit is the number times
  -- the nanoseconds of the unit: `+` or `-` or no sign, at least one decimal digit, and `s`, `m`, `h`,
  -- `d` or `y`. The conditions are that the number fits into 63 bits and the product into 64, and that
  -- `time.Parse` refuses digits with a unit behind them in a layout of digits.
  pub calculate_offset-text :
      (sign : Sign) (now later : ℤ)
      → IsInt64 (value sign n *ℤ pos ns)
      → calculate_offset u (parsed_date u read) now later (text sign w n unit)
        ≡ ok (value sign n *ℤ pos ns)
  calculate_offset-text sign now later product =
      calculate_offset-units sign w n unit ns is_unit some_digit wide fits u (parsed_date u read)
        now later (no_date sign) product
