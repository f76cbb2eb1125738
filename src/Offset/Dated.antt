-- ===== src/Offset/Dated.antt =====
-- `CalculateOffset` with the package's own date parser: which numbers it takes for dates.
use watchmaker.Prelude.{
  ℕ, ◌*◌, ◌^◌, ◌<◌, ◌≡◌, refl, ap, ◌∙◌, [], ◌∷◌, false, ltb, if◌then◌else◌, inl, inr, Bool-cases,
  Option, none, some, arith, length,
}
use watchmaker.Prelude.Int.{ℤ, pos, ◌-ℤ◌}
use watchmaker.Prelude.Outcome.{Outcome, ok, fail, panic, hung}
use watchmaker.Go.Text.{Bytes, codes, equal}
use watchmaker.Go.Words.{two_63, IsInt64}
use watchmaker.Errors.{Error}
use watchmaker.Offset.{nanosecond, offset_of_date, is_no_offset, calculate_offset}
use watchmaker.Offset.Laws.{offset_of_date-exact, offset_of_date-turned}
use watchmaker.Offset.Decimal.{decimal}
use watchmaker.DateParse.{Reader}
use watchmaker.DateParse.Runes.{Tables}
use watchmaker.DateParse.Exported.{parse_date_any}
use watchmaker.DateParse.Runs.{AllDigits}
use watchmaker.DateParse.Stamps.{
  Stamp, seconds, milliseconds, microseconds, nanoseconds, length-decimal, decimal-AllDigits,
  parse_date_any-stamp, parse_date_any-year,
}

-- `t, err := ParseDateAny(offsetStr)` with `err == nil`.
abbrev pub without_error : Outcome Error ℤ → Option ℤ
without_error (ok t) = some t
without_error (fail e) = none
without_error panic = none
without_error hung = none

unfoldable pub parsed_date : Tables → Reader → Bytes → Option ℤ
parsed_date u read s = without_error (parse_date_any u read s [])

-- Two digits or more are none of the texts that mean no offset.
digits-is_no_offset : (s : Bytes) → AllDigits s → 1 < length s → is_no_offset s ≡ false
unfolding equal
digits-is_no_offset [] d h = absurd (omega arith)
digits-is_no_offset (a ∷ []) d h = absurd (omega arith)
digits-is_no_offset (a ∷ b ∷ s) d h = ground arith

decimal-is_no_offset : (w n : ℕ) → 1 < w → is_no_offset (decimal w n) ≡ false
decimal-is_no_offset w n h =
    digits-is_no_offset (decimal w n) (decimal-AllDigits w n) (omega (arith, length-decimal w n))

Stamp-wide : (w ns : ℕ) → Stamp w ns → 1 < w
Stamp-wide w ns seconds = omega arith
Stamp-wide w ns milliseconds = omega arith
Stamp-wide w ns microseconds = omega arith
Stamp-wide w ns nanoseconds = omega arith

calculate_offset-parsed :
    (u : Tables) (date : Bytes → Option ℤ) (now later t : ℤ) (s : Bytes)
    → is_no_offset s ≡ false
    → date s ≡ some t
    → calculate_offset u date now later s ≡ ok (offset_of_date now later t)
unfolding calculate_offset
calculate_offset-parsed u date now later t s h e = rw (h, e, calculate_offset) refl

-- The distance to the instant if the instant's part below a second is not above that of `now`, and
-- the opposite otherwise.
offset_of_date-signed :
    (now later t : ℤ)
    → IsInt64 (t -ℤ later)
    → IsInt64 (later -ℤ t)
    → offset_of_date now later t
      ≡ (if ltb (nanosecond now) (nanosecond t) then later -ℤ t else t -ℤ later)
offset_of_date-signed now later t there back =
    elim (Bool-cases (ltb (nanosecond now) (nanosecond t))) [
      | inl h ↦ rw h (offset_of_date-turned now later t back (ground arith))
      | inr h ↦ rw h (offset_of_date-exact now later t there (ground arith))
    ]

-- A number of 10, 13, 16 or 19 digits is an instant t, and no number of seconds. The offset is the
-- distance from `later`, the second reading of the clock, to t; but where t's part below a second is
-- above that of `now`, the first reading, it is the opposite. The conditions are that t is below
-- 2 ^ 63 nanoseconds and that both distances fit into 64 bits.
pub calculate_offset-stamp :
    (u : Tables) (read : Reader) (now later : ℤ) (w ns n : ℕ)
    → Stamp w ns
    → n < 10 ^ w
    → n * ns < two_63
    → IsInt64 (pos (n * ns) -ℤ later)
    → IsInt64 (later -ℤ pos (n * ns))
    → calculate_offset u (parsed_date u read) now later (decimal w n)
      ≡ ok (
          if ltb (nanosecond now) (nanosecond (pos (n * ns)))
          then later -ℤ pos (n * ns)
          else pos (n * ns) -ℤ later)
unfolding parsed_date
calculate_offset-stamp u read now later w ns n stamp wide fits there back =
    calculate_offset-parsed u (parsed_date u read) now later (pos (n * ns)) (decimal w n)
      (decimal-is_no_offset w n (Stamp-wide w ns stamp))
      (ap without_error (parse_date_any-stamp u read w ns n stamp wide fits))
    ∙ ap ok (offset_of_date-signed now later (pos (n * ns)) there back)

-- A number of four digits is a year if it can be read as one, and no number of seconds.
pub calculate_offset-year :
    (u : Tables) (read : Reader) (now later t : ℤ) (n : ℕ)
    → read none (codes "2006") (decimal 4 n) ≡ ok t
    → calculate_offset u (parsed_date u read) now later (decimal 4 n)
      ≡ ok (offset_of_date now later t)
unfolding parsed_date
calculate_offset-year u read now later t n readable =
    calculate_offset-parsed u (parsed_date u read) now later t (decimal 4 n)
      (decimal-is_no_offset 4 n (omega arith))
      (ap without_error (parse_date_any-year u read n ∙ readable))
