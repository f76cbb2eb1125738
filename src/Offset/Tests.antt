-- ===== src/Offset/Tests.antt =====
-- `CalculateOffset` at texts and dates.
use watchmaker.Prelude.{◌≡◌, refl, arith, ◌*◌}
use watchmaker.Prelude.Int.{pos, negsuc, ◌-ℤ◌, ◌*ℤ◌}
use watchmaker.Prelude.Outcome.{ok, fail}
use watchmaker.Errors.{Error, sys}
use watchmaker.Prelude.{none}
use watchmaker.Go.Text.{codes, equal, to_lower}
use watchmaker.Go.Words.{int64, uint64}
use watchmaker.Offset.{scale, nanosecond, offset_of_date, calculate_offset, parse_units}
use watchmaker.Offset.Decimal.{plus, value, decimal}
use watchmaker.Offset.Dated.{parsed_date, calculate_offset-stamp, calculate_offset-year}
use watchmaker.DateParse.{Reader}
use watchmaker.DateParse.Stamps.{milliseconds}
use watchmaker.DateParse.Runes.{is_ascii, lower_text}
use watchmaker.DateParse.Samples.{ascii}
use watchmaker.Offset.Numbers.{calculate_offset-text}
use watchmaker.Offset.Laws.{days, minutes, scale-exact}

two_hours_back :
    calculate_offset ascii (λ _. none) (pos 0) (pos 0) (codes "-2H")
    ≡ ok (pos 0 -ℤ pos 7_200_000_000_000)
unfolding calculate_offset parse_units equal lower_text is_ascii to_lower scale ◌-ℤ◌ ◌*ℤ◌ int64
    uint64
two_hours_back = refl

scale-exact_example : scale b'd' (negsuc 2) ≡ negsuc 2 *ℤ pos 86_400_000_000_000
unfolding ◌*ℤ◌
scale-exact_example = scale-exact b'd' 86_400_000_000_000 (negsuc 2) days (omega arith, omega arith)

-- A reader that takes any text for an instant.
abbrev any_year : Reader
any_year loc layout text = ok (pos 17)

abbrev bad_layout : Error
bad_layout = sys (codes "parsing time: extra text")

-- A reader that takes nothing for an instant.
abbrev no_date : Reader
no_date loc layout text = fail bad_layout

calculate_offset-text_example :
    calculate_offset ascii (parsed_date ascii no_date) (pos 5) (pos 6) (codes "+90m")
    ≡ ok (value plus 90 *ℤ pos 60_000_000_000)
unfolding ◌*ℤ◌
calculate_offset-text_example =
    calculate_offset-text ascii no_date 2 90 b'm' 60_000_000_000 minutes (omega arith) (omega arith)
      (omega arith) (λ layout s unit ns is_unit h g. (bad_layout, refl)) plus (pos 5) (pos 6)
      (omega arith, omega arith)

calculate_offset-stamp_example :
    calculate_offset ascii (parsed_date ascii any_year) (pos 5) (pos 6) (decimal 13 1332151919001)
    ≡ ok (pos 6 -ℤ pos (1332151919001 * 1000000))
unfolding nanosecond ◌-ℤ◌
calculate_offset-stamp_example =
    calculate_offset-stamp ascii any_year (pos 5) (pos 6) 13 1000000 1332151919001 milliseconds
      (omega arith) (omega arith) (omega arith, omega arith) (omega arith, omega arith)

calculate_offset-year_example :
    calculate_offset ascii (parsed_date ascii any_year) (pos 5) (pos 6) (decimal 4 3600)
    ≡ ok (offset_of_date (pos 5) (pos 6) (pos 17))
calculate_offset-year_example =
    calculate_offset-year ascii any_year (pos 5) (pos 6) (pos 17) 3600 refl
