-- ===== src/DateParse/Dashed.antt =====
-- Dates of a year, a month and a day with dashes between them.
use watchmaker.Prelude.{ℕ, ◌≡◌, ◌∙◌, refl, ap, [], ◌∷◌, none, arith}
use watchmaker.Prelude.Int.{pos, ◌-ℤ◌}
use watchmaker.Prelude.Outcome.{ok}
use watchmaker.Go.Text.{Bytes, codes}
use watchmaker.Go.Words.{int64, uint64}
use watchmaker.DateParse.States.{date_digit, date_year_dash_dash}
use watchmaker.DateParse.Fields.{
  Parser, new_parser, apply_options, set, put_all, set_month, set_day, coalesce_date,
}
use watchmaker.DateParse.Time.{Reader, bind, parse, with_full_month, without_skip}
use watchmaker.DateParse.Runes.{Tables}
use watchmaker.DateParse.Steps.{accept}
use watchmaker.DateParse.Loop.{behind, gave, loop}
use watchmaker.DateParse.Date.Digits.{digit_dash, digit_step}
use watchmaker.DateParse.Date.Dashes.{year_dash_step, year_dash_dash_step}
use watchmaker.DateParse.Date.Turn.{date_step, date_turn}
use watchmaker.DateParse.Date.End.{date_end, date_end_at}
use watchmaker.DateParse.Whole.{behind_date, parse_once, prepared, parse_time}
use watchmaker.DateParse.Exported.{fuel, then_parse, parse_date_any, layout_of, parse_date_format}
use watchmaker.DateParse.Given.{parse_time-fuel}
use watchmaker.DateParse.Runs.{
  AllDigits, date_turn-ascii, loop-next, loop-start, loop-digits, loop-behind,
}

abbrev pub dashed : ℕ → ℕ → ℕ → ℕ → ℕ → ℕ → ℕ → ℕ → Bytes
dashed y0 y1 y2 y3 m0 m1 d0 d1 = y0 ∷ y1 ∷ y2 ∷ y3 ∷ b'-' ∷ m0 ∷ m1 ∷ b'-' ∷ d0 ∷ d1 ∷ []

module _ (u : Tables) (y0 y1 y2 y3 m0 m1 d0 d1 : ℕ)
    (digits : AllDigits (y0 ∷ y1 ∷ y2 ∷ y3 ∷ m0 ∷ m1 ∷ d0 ∷ d1 ∷ [])) where
  abbrev s : Bytes
  s = dashed y0 y1 y2 y3 m0 m1 d0 d1

  abbrev started : Parser
  started = record (new_parser s none []) { state_date = date_digit }

  abbrev behind_year : Parser
  behind_year = record (digit_dash 4 started) { part1_len = pos 4 }

  abbrev behind_month : Parser
  behind_month =
      set_month
        (record behind_year { molen = pos 2; dayi = pos 8; state_date = date_year_dash_dash })

  dashed_loop :
      loop (date_turn u) 12 s (pos 0) (new_parser s none []) ≡ ok (behind s (pos 10) behind_month)
  unfolding new_parser apply_options digit_dash set put_all set_month date_step digit_step
      year_dash_step year_dash_dash_step ◌-ℤ◌ int64 uint64
  dashed_loop =
      loop-start u 11 s (new_parser s none []) refl (omega arith) digits.0
      ∙ loop-digits u 3 8 s 1 started tt (ground arith)
      ∙ loop-next (date_turn u) 7 s 4 started behind_year (omega arith)
          (date_turn-ascii u s 4 started (omega arith) (omega arith))
      ∙ loop-digits u 2 5 s 5 behind_year tt (ground arith)
      ∙ loop-next (date_turn u) 4 s 7 behind_year behind_month (omega arith)
          (date_turn-ascii u s 7 behind_year (omega arith) (omega arith))
      ∙ loop-digits u 2 2 s 8 behind_month tt (ground arith)
      ∙ loop-behind (date_turn u) 1 s behind_month

  -- With the day.
  abbrev whole : Parser
  whole = coalesce_date (pos 10) behind_month

  dashed_once : parse_once u s (new_parser s none []) ≡ ok (gave s (accept whole))
  unfolding parse_once behind_date new_parser apply_options digit_dash set put_all set_month set_day
      coalesce_date date_end date_end_at ◌-ℤ◌ int64 uint64
  dashed_once = ap (λ x. bind x (behind_date u)) dashed_loop

  dashed_run : (read : Reader) → parse_time u read (fuel s) s none [] ≡ ok (accept whole)
  unfolding new_parser apply_options
  dashed_run read = parse_time-fuel u read s s none [] (accept whole) dashed_once refl

-- A date of 4, 2 and 2 digits with dashes between them is read in the layout "2006-01-02", which is
-- the layout that `ParseDateFormat` gives when the text can be read.
pub parse_date_any-dashed :
    (u : Tables) (read : Reader) (y0 y1 y2 y3 m0 m1 d0 d1 : ℕ)
    → AllDigits (y0 ∷ y1 ∷ y2 ∷ y3 ∷ m0 ∷ m1 ∷ d0 ∷ d1 ∷ [])
    → (parse_date_any u read (dashed y0 y1 y2 y3 m0 m1 d0 d1) []
        ≡ read none (codes "2006-01-02") (dashed y0 y1 y2 y3 m0 m1 d0 d1))
      × (parse_date_format u read (dashed y0 y1 y2 y3 m0 m1 d0 d1) []
          ≡ bind
              (read none (codes "2006-01-02") (dashed y0 y1 y2 y3 m0 m1 d0 d1))
              (λ t. ok (codes "2006-01-02")))
unfolding parse_date_any parse_date_format then_parse layout_of parse prepared with_full_month
    without_skip new_parser apply_options digit_dash set put_all set_month set_day coalesce_date
    ◌-ℤ◌ int64 uint64
parse_date_any-dashed u read y0 y1 y2 y3 m0 m1 d0 d1 digits =
    let run = dashed_run u y0 y1 y2 y3 m0 m1 d0 d1 digits read in
    (ap (λ x. bind x (then_parse (parse read))) run, ap (λ x. bind x (layout_of u read)) run)
