-- ===== src/DateParse/Tests.antt =====
-- A parser in the middle of a date.
use watchmaker.Prelude.{◌≡◌, ◌+◌, refl, ◌++◌, [], none, arith, length, take, drop}
use watchmaker.Prelude.Int.{pos, ◌-ℤ◌}
use watchmaker.Prelude.Outcome.{ok}
use watchmaker.Go.Text.{codes}
use watchmaker.Go.Words.{int64, uint64}
use watchmaker.DateParse.{Parser, new_parser, set, coalesce_date, trim_extra}
use watchmaker.DateParse.Fraction.{trim_extra-IsAligned}
use watchmaker.DateParse.Written.{set-pieces}

-- With the position of the month, and of the day, whose end is not known.
abbrev halfway : Parser
halfway = record (new_parser (codes "2014-04-26 17:24:37.123 extra") none []) {
  yeari = pos 0;
  moi = pos 5;
  molen = pos 2;
  dayi = pos 8;
  houri = pos 11;
  hourlen = pos 2;
  mini = pos 14;
  minlen = pos 2;
  seci = pos 17;
  seclen = pos 2;
  msi = pos 20;
  mslen = pos 3;
  extra = pos 23;
}

day_is_written : (coalesce_date (pos 10) halfway).format ≡ codes "2014-04-02 17:24:37.123 extra"
unfolding coalesce_date new_parser int64 uint64 ◌-ℤ◌
day_is_written = refl

trim_extra-IsAligned_example :
    (q : Parser) × (trim_extra halfway ≡ ok q) × (length q.format ≡ length q.datestr)
unfolding new_parser
trim_extra-IsAligned_example = trim_extra-IsAligned halfway refl

set-pieces_example :
    (set (pos 5) (codes "01") halfway).format
    ≡ take 5 halfway.format ++ (codes "01" ++ drop (5 + length (codes "01")) halfway.format)
unfolding new_parser
set-pieces_example = set-pieces 5 (codes "01") halfway (omega arith)
