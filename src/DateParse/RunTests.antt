-- ===== src/DateParse/RunTests.antt =====
-- The theorems about `parseTime` at texts.
use watchmaker.Prelude.{◌≡◌, refl, true, false, [], ◌∷◌, none, arith, if◌then◌else◌, ◌-◌, ◌*◌}
use watchmaker.Prelude.Int.{pos, negsuc}
use watchmaker.Prelude.Outcome.{ok, fail}
use watchmaker.Prelude.Finishes.{Ends}
use watchmaker.Go.Text.{Bytes, codes, equal, contains}
use watchmaker.Go.Words.{two_64}
use watchmaker.Errors.{sys, unknown_format, ambiguous}
use watchmaker.Offset.Decimal.{decimal}
use watchmaker.DateParse.Fields.{
  new_parser, apply_options, retry_ambiguous_date_with_swap, prefer_month_first,
}
use watchmaker.DateParse.Time.{Reader}
use watchmaker.DateParse.Runes.{is_digit, is_letter, decode_rune}
use watchmaker.DateParse.Whole.{is_month_error, parse_time}
use watchmaker.DateParse.Returns.{Answers, retry-OnlyFlags, prefer-OnlyFlags, parse_time-Answers}
use watchmaker.DateParse.Retry.{parse_time-Ends}
use watchmaker.DateParse.Exported.{
  parse_date_any, parse_date_in, parse_data_strict, parse_date_format,
}
use watchmaker.DateParse.Stamps.{seconds, parse_date_any-stamp, parse_date_any-overflow}
use watchmaker.DateParse.Dashed.{parse_date_any-dashed}
use watchmaker.DateParse.Slashed.{preferring, parse_date_in-slashed}
use watchmaker.DateParse.Swapped.{parse_date_in-retry}
use watchmaker.DateParse.Usable.{Settles}
use watchmaker.DateParse.Settled.{parse_date_in-Settles}
use watchmaker.DateParse.Moment.{parse_date_any-moment}
use watchmaker.DateParse.Strict.{IsClear, parse_data_strict-ok}
use watchmaker.DateParse.Exported.{fuel}
use watchmaker.DateParse.Refused.{parse_date_any-refused}
use watchmaker.DateParse.Samples.{ascii, any_text, dashed_strictly}

abbrev a_date : Bytes
a_date = codes "April 8th, 2009"

parse_time-Answers_example :
    Answers (parse_time ascii any_text 32 a_date none (prefer_month_first false ∷ []))
unfolding new_parser apply_options prefer_month_first
parse_time-Answers_example =
    parse_time-Answers ascii any_text 32 a_date none (prefer_month_first false ∷ [])
      (prefer-OnlyFlags false, tt) (λ s loc. refl) (omega arith) (omega arith)

parse_time-Ends_example :
    Ends (parse_time ascii any_text 62 a_date none (retry_ambiguous_date_with_swap true ∷ []))
parse_time-Ends_example =
    parse_time-Ends ascii any_text 62 a_date none (retry_ambiguous_date_with_swap true ∷ [])
      (λ loc layout text. tt) (retry-OnlyFlags true, tt) (omega arith) (omega arith)

parse_date_any-stamp_example :
    parse_date_any ascii any_text (decimal 10 1332151919) [] ≡ ok (pos (1332151919 * 1000000000))
parse_date_any-stamp_example =
    parse_date_any-stamp ascii any_text 10 1000000000 1332151919 seconds (omega arith) (omega arith)

-- The last millisecond of the year 2286.
parse_date_any-overflow_example :
    parse_date_any ascii any_text (decimal 13 9999999999999) []
    ≡ ok (negsuc (two_64 - 9999999999999 * 1000000 - 1))
parse_date_any-overflow_example =
    parse_date_any-overflow ascii any_text 9999999999999 (omega arith) (omega arith)

parse_date_any-dashed_example :
    (parse_date_any ascii any_text (codes "2014-04-26") [] ≡ ok (pos 0))
    × (parse_date_format ascii any_text (codes "2014-04-26") [] ≡ ok (codes "2006-01-02"))
parse_date_any-dashed_example =
    parse_date_any-dashed ascii any_text b'2' b'0' b'1' b'4' b'0' b'4' b'2' b'6' (ground arith)

parse_date_in-slashed_example :
    (parse_date_in ascii any_text (codes "03/31/2014") none (preferring true false) ≡ ok (pos 0))
    × (parse_data_strict ascii any_text (codes "03/31/2014") (preferring true false)
        ≡ fail ambiguous)
parse_date_in-slashed_example =
    parse_date_in-slashed ascii any_text b'0' b'3' b'3' b'1' b'2' b'0' b'1' b'4' none true
      (ground arith)

-- A reader to which the month of these texts is out of range if it comes first.
abbrev day_first : Reader
day_first loc format text =
    if equal format (codes "01/02/2006")
    then fail (sys (codes "parsing time: month out of range"))
    else ok (pos 1)

parse_date_in-retry_example :
    parse_date_in ascii day_first (codes "31/03/2014") none (preferring true true) ≡ ok (pos 1)
unfolding equal contains is_month_error
parse_date_in-retry_example =
    parse_date_in-retry ascii day_first b'3' b'1' b'0' b'3' b'2' b'0' b'1' b'4' none true
      (ground arith)

parse_date_any-refused_example :
    parse_date_any ascii any_text (codes "?2014") [] ≡ fail (unknown_format (codes "?2014"))
unfolding is_digit is_letter decode_rune
parse_date_any-refused_example = parse_date_any-refused ascii any_text (codes "?2014") (refl, refl)

parse_date_any-moment_example :
    (parse_date_any ascii any_text (codes "2014-04-26 17:24:37") [] ≡ ok (pos 0))
    × (parse_date_format ascii any_text (codes "2014-04-26 17:24:37") []
        ≡ ok (codes "2006-01-02 15:04:05"))
parse_date_any-moment_example =
    parse_date_any-moment ascii any_text b'2' b'0' b'1' b'4' b'0' b'4' b'2' b'6' b'1' b'7' b'2' b'4'
      b'3' b'7' (ground arith)

parse_data_strict-ok_example :
    IsClear (parse_time ascii any_text (fuel (codes "2014-04-26")) (codes "2014-04-26") none [])
    × (parse_date_any ascii any_text (codes "2014-04-26") [] ≡ ok (pos 0))
parse_data_strict-ok_example =
    parse_data_strict-ok ascii any_text (codes "2014-04-26") [] (pos 0) dashed_strictly

parse_date_in-Settles_example :
    Settles (parse_date_in ascii any_text a_date none (prefer_month_first false ∷ []))
    × Settles (parse_date_any ascii any_text a_date (prefer_month_first false ∷ []))
    × Settles (parse_data_strict ascii any_text a_date (prefer_month_first false ∷ []))
    × Settles (parse_date_format ascii any_text a_date (prefer_month_first false ∷ []))
unfolding new_parser apply_options prefer_month_first
parse_date_in-Settles_example =
    parse_date_in-Settles ascii any_text a_date none (prefer_month_first false ∷ [])
      (λ s full. omega arith) (λ loc layout text. tt) (prefer-OnlyFlags false, tt) (λ s loc. refl)
      (omega arith)
