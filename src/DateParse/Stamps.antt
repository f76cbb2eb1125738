-- ===== src/DateParse/Stamps.antt =====
-- Texts of digits: numbers of seconds, milliseconds, microseconds and nanoseconds since 1970.
use watchmaker.Prelude.{
  ℕ, zero, suc, ◌+◌, ◌-◌, ◌*◌, ◌/◌, ◌%◌, ◌^◌, ◌≡◌, ◌≤◌, ◌<◌, ◌∙◌, refl, ap, [], ◌∷◌, ◌++◌, none,
  some, arith, length, length-append, get_or,
}
use watchmaker.Prelude.Int.{pos, negsuc, ◌*ℤ◌}
use watchmaker.Prelude.Outcome.{ok}
use watchmaker.Go.Text.{Bytes, codes}
use watchmaker.Go.Words.{two_63, two_64, int64, uint64, wrap64}
use watchmaker.Go.Strconv.{atoi}
use watchmaker.Offset.Decimal.{
  bare, decimal, Free-decimal, parse_uint-decimal, atoi-signed, with_sign-value,
}
use watchmaker.DateParse.States.{date_digit}
use watchmaker.DateParse.Fields.{Parser, new_parser, apply_options, coalesce_date}
use watchmaker.DateParse.Time.{Reader, bind, parse, with_full_month, without_skip}
use watchmaker.DateParse.Runes.{Tables}
use watchmaker.DateParse.Loop.{behind, gave, loop}
use watchmaker.DateParse.Date.Turn.{date_turn}
use watchmaker.DateParse.Date.End.{date_end, digits_end, scaled, seconds_since, at_time}
use watchmaker.DateParse.Whole.{parse_once, behind_date}
use watchmaker.DateParse.Exported.{then_parse, parse_date_any}
use watchmaker.DateParse.Given.{parse_time-fuel}
use watchmaker.DateParse.Runs.{IsDigit, AllDigits, DigitsAt, loop-start, loop-digits, loop-behind}

AllDigits-append : (s t : Bytes) → AllDigits s → AllDigits t → AllDigits (s ++ t)
AllDigits-append [] t h g = g
AllDigits-append (c ∷ s) t h g = (h.0, AllDigits-append s t h.1 g)

pub decimal-AllDigits : (w n : ℕ) → AllDigits (decimal w n)
decimal-AllDigits zero n = tt
decimal-AllDigits (suc w) n =
    AllDigits-append (decimal w (n / 10)) _ (decimal-AllDigits w (n / 10))
      ((omega arith, omega arith), tt)

pub length-decimal : (w n : ℕ) → length (decimal w n) ≡ w
length-decimal zero n = refl
length-decimal (suc w) n =
    length-append (decimal w (n / 10)) ((b'0' + n % 10) ∷ [])
    ∙ omega (arith, length-decimal w (n / 10))

atoi-decimal : (w n : ℕ) → 0 < w → n < 10 ^ w → n < two_63 → atoi (decimal w n) ≡ some (pos n)
atoi-decimal w n h wide fits =
    atoi-signed bare (decimal w n) (Free-decimal b'+' w n (omega arith))
      (Free-decimal b'-' w n (omega arith))
    ∙ rw (parse_uint-decimal w n h wide (omega arith)) (with_sign-value bare n fits)

get_or-IsDigit : (s : Bytes) (i : ℕ) → AllDigits s → i < length s → IsDigit (get_or s i 0)
get_or-IsDigit [] i h g = absurd (omega arith)
get_or-IsDigit (c ∷ s) zero h g = h.0
get_or-IsDigit (c ∷ s) (suc i) h g = get_or-IsDigit s i h.1 (omega arith)

AllDigits-DigitsAt : (k : ℕ) (s : Bytes) (i : ℕ) → AllDigits s → i + k ≤ length s → DigitsAt s i k
AllDigits-DigitsAt zero s i h g = tt
AllDigits-DigitsAt (suc k) s i h g = (
  omega arith,
  get_or-IsDigit s i h (omega arith),
  AllDigits-DigitsAt k s (i + 1) h (omega arith),
)

-- A parser that has read digits only.
abbrev pub read_digits : Bytes → Parser
read_digits s = record (new_parser s none []) { state_date = date_digit }

module _ (u : Tables) (s : Bytes) (digits : AllDigits s) (some_digit : 0 < length s) where
  digits_loop :
      loop (date_turn u) (length s + 2) s (pos 0) (new_parser s none [])
      ≡ ok (behind s (pos (length s)) (read_digits s))
  unfolding new_parser apply_options
  digits_loop =
      let k = length s - 1 in
      let turns : length s + 2 ≡ suc (k + 2) = omega arith in
      ap (λ m. loop (date_turn u) m s (pos 0) (new_parser s none [])) turns
      ∙ loop-start u (k + 2) s (new_parser s none []) refl some_digit
          (get_or-IsDigit s 0 digits some_digit)
      ∙ loop-digits u k 2 s 1 (read_digits s) tt (AllDigits-DigitsAt k s 1 digits (omega arith))
      ∙ ap (λ j. loop (date_turn u) 2 s (pos j) (read_digits s)) (omega arith)
      ∙ loop-behind (date_turn u) 1 s (read_digits s)

  digits_once : parse_once u s (new_parser s none []) ≡ ok (gave s (digits_end s (read_digits s)))
  unfolding parse_once behind_date new_parser apply_options coalesce_date date_end
  digits_once = rw (digits_loop) refl

  pub parse_date_any-digits :
      (read : Reader)
      → parse_date_any u read s [] ≡ then_parse (parse read) (digits_end s (read_digits s))
  unfolding parse_date_any new_parser apply_options
  parse_date_any-digits read =
      ap (λ x. bind x (then_parse (parse read)))
        (parse_time-fuel u read s s none [] (digits_end s (read_digits s)) digits_once refl)

-- The widths of the numbers, and the nanoseconds of their units.
pub data Stamp : ℕ → ℕ → Type 0 where
  seconds : Stamp 10 1000000000
  milliseconds : Stamp 13 1000000
  microseconds : Stamp 16 1000
  nanoseconds : Stamp 19 1

times-pos : (n k : ℕ) → pos n *ℤ pos k ≡ pos (n * k)
unfolding ◌*ℤ◌
times-pos n k = ground arith

wrap64-pos : (n : ℕ) → n < two_63 → wrap64 (pos n) ≡ pos n
unfolding int64 uint64
wrap64-pos n h = ground arith

scaled-pos : (k n : ℕ) → n * k < two_63 → scaled k (some (pos n)) ≡ some (pos (n * k))
unfolding scaled
scaled-pos k n h = ap some (ap wrap64 (times-pos n k) ∙ wrap64-pos (n * k) h)

seconds_since-pos : (n : ℕ) → seconds_since (some (pos n)) ≡ some (pos (n * 1000000000))
unfolding seconds_since
seconds_since-pos n = ap some (times-pos n 1000000000)

Stamp-width : (w ns : ℕ) → Stamp w ns → 0 < w
Stamp-width w ns seconds = omega arith
Stamp-width w ns milliseconds = omega arith
Stamp-width w ns microseconds = omega arith
Stamp-width w ns nanoseconds = omega arith

Stamp-fits : (w ns n : ℕ) → Stamp w ns → n * ns < two_63 → n < two_63
Stamp-fits w ns n seconds h = omega arith
Stamp-fits w ns n milliseconds h = omega arith
Stamp-fits w ns n microseconds h = omega arith
Stamp-fits w ns n nanoseconds h = omega arith

wrap64-above : (n : ℕ) → two_63 ≤ n → n < two_64 → wrap64 (pos n) ≡ negsuc (two_64 - n - 1)
unfolding int64 uint64
wrap64-above n h g = ground arith

digits_end-wrapped :
    (n : ℕ) (s : Bytes) (p : Parser)
    → length s ≡ 13
    → atoi s ≡ some (pos n)
    → 9223372036855 ≤ n
    → n < 10 ^ 13
    → digits_end s p ≡ at_time s (some (negsuc (two_64 - n * 1000000 - 1))) p
unfolding digits_end scaled
digits_end-wrapped n s p h number large wide =
    rw (h, digits_end, number)
      (ap (λ z. at_time s (some z) p)
        (ap wrap64 (times-pos n 1000000) ∙ wrap64-above (n * 1000000) (omega arith) (omega arith)))

digits_end-stamp :
    (w ns n : ℕ) (s : Bytes) (p : Parser)
    → Stamp w ns
    → length s ≡ w
    → atoi s ≡ some (pos n)
    → n * ns < two_63
    → digits_end s p ≡ at_time s (some (pos (n * ns))) p
unfolding digits_end
digits_end-stamp w ns n s p seconds h number fits =
    rw (h, digits_end, number) (ap (λ o. at_time s o p) (seconds_since-pos n))
digits_end-stamp w ns n s p milliseconds h number fits =
    rw (h, digits_end, number) (ap (λ o. at_time s o p) (scaled-pos 1000000 n fits))
digits_end-stamp w ns n s p microseconds h number fits =
    rw (h, digits_end, number) (ap (λ o. at_time s o p) (scaled-pos 1000 n fits))
digits_end-stamp w ns n s p nanoseconds h number fits =
    rw (h, digits_end, number) (ap (λ k. at_time s (some (pos k)) p) (omega arith))

-- A number of 10, 13, 16 or 19 digits is a number of seconds, milliseconds, microseconds or
-- nanoseconds since 1970, as long as the nanoseconds are below 2 ^ 63.
pub parse_date_any-stamp :
    (u : Tables) (read : Reader) (w ns n : ℕ)
    → Stamp w ns
    → n < 10 ^ w
    → n * ns < two_63
    → parse_date_any u read (decimal w n) [] ≡ ok (pos (n * ns))
unfolding then_parse parse at_time
parse_date_any-stamp u read w ns n stamp wide fits =
    let s = decimal w n in
    let width = Stamp-width w ns stamp in
    parse_date_any-digits u s (decimal-AllDigits w n) (omega (arith, length-decimal w n)) read
    ∙ ap (then_parse (parse read)) (
        digits_end-stamp w ns n s (read_digits s) stamp (length-decimal w n)
          (atoi-decimal w n width wide (Stamp-fits w ns n stamp fits)) fits)

-- A number of 13 digits that is too large for its nanoseconds wraps: the time is before 1970.
pub parse_date_any-overflow :
    (u : Tables) (read : Reader) (n : ℕ)
    → 9223372036855 ≤ n
    → n < 10 ^ 13
    → parse_date_any u read (decimal 13 n) [] ≡ ok (negsuc (two_64 - n * 1000000 - 1))
unfolding then_parse parse at_time
parse_date_any-overflow u read n large wide =
    let s = decimal 13 n in
    parse_date_any-digits u s (decimal-AllDigits 13 n) (omega (arith, length-decimal 13 n)) read
    ∙ ap (then_parse (parse read)) (
        digits_end-wrapped n s (read_digits s) (length-decimal 13 n)
          (atoi-decimal 13 n (omega arith) wide (omega arith)) large wide)

-- A number of four digits is a year: it is read in the layout "2006".
pub parse_date_any-year :
    (u : Tables) (read : Reader) (n : ℕ)
    → parse_date_any u read (decimal 4 n) [] ≡ read none (codes "2006") (decimal 4 n)
unfolding then_parse parse with_full_month without_skip digits_end new_parser apply_options
parse_date_any-year u read n =
    parse_date_any-digits u (decimal 4 n) (decimal-AllDigits 4 n)
      (omega (arith, length-decimal 4 n)) read
