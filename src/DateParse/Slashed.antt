-- ===== src/DateParse/Slashed.antt =====
-- Dates of two numbers and a year with slashes between them: which number is the month.
use watchmaker.Prelude.{
  ℕ, ◌≡◌, ◌∙◌, refl, ap, List, [], ◌∷◌, Bool, true, false, Option, none, arith, if◌then◌else◌,
}
use watchmaker.Prelude.Int.{pos, ◌-ℤ◌}
use watchmaker.Prelude.Outcome.{ok, fail}
use watchmaker.Go.Text.{Bytes, codes}
use watchmaker.Go.Words.{int64, uint64}
use watchmaker.Errors.{ambiguous}
use watchmaker.DateParse.States.{date_digit, date_digit_slash}
use watchmaker.DateParse.Fields.{
  Parser, ParserOption, prefer_month_first, retry_ambiguous_date_with_swap, new_parser,
  apply_options, set, put_all, set_month, set_day, set_year, coalesce_date,
}
use watchmaker.DateParse.Time.{Reader, bind, parse, with_full_month, without_skip}
use watchmaker.DateParse.Runes.{Tables, is_letter}
use watchmaker.DateParse.Steps.{accept, next}
use watchmaker.DateParse.Loop.{behind, gave, loop}
use watchmaker.DateParse.Date.Digits.{digit_slash, digit_step}
use watchmaker.DateParse.Date.Slashes.{second_day, second_month, slash_step}
use watchmaker.DateParse.Date.Turn.{date_step, date_turn}
use watchmaker.DateParse.Date.End.{date_end, date_end_at}
use watchmaker.DateParse.Whole.{behind_date, parse_once, prepared}
use watchmaker.DateParse.Exported.{then_parse, parse_date_in, strictly, parse_data_strict}
use watchmaker.DateParse.Given.{parse_time-fuel}
use watchmaker.DateParse.Runs.{
  IsDigit, AllDigits, date_turn-ascii, loop-next, loop-start, loop-digits, loop-behind, Passes,
}

abbrev pub slashed : ℕ → ℕ → ℕ → ℕ → ℕ → ℕ → ℕ → ℕ → Bytes
slashed a0 a1 b0 b1 y0 y1 y2 y3 = a0 ∷ a1 ∷ b'/' ∷ b0 ∷ b1 ∷ b'/' ∷ y0 ∷ y1 ∷ y2 ∷ y3 ∷ []

-- The layout, with the month first or the day.
abbrev pub layout : Bool → Bytes
layout true = codes "01/02/2006"
layout false = codes "02/01/2006"

-- Options that the rest of this file is about, with the options of the retry behind them.
abbrev pub preferring : Bool → Bool → List ParserOption
preferring month_first retry =
    prefer_month_first month_first ∷ retry_ambiguous_date_with_swap retry ∷ []

is_letter-digit : (u : Tables) (c : ℕ) → IsDigit c → is_letter u c ≡ false
unfolding is_letter
is_letter-digit u c h = ground arith

module _ (u : Tables) (a0 a1 b0 b1 y0 y1 y2 y3 : ℕ) (loc : Option Bytes) (retry : Bool)
    (digits : AllDigits (a0 ∷ a1 ∷ b0 ∷ b1 ∷ y0 ∷ y1 ∷ y2 ∷ y3 ∷ [])) where
  abbrev pub s : Bytes
  s = slashed a0 a1 b0 b1 y0 y1 y2 y3

  abbrev pub fresh : Bool → Parser
  fresh m = record (new_parser s loc []) {
    prefer_month_first = m;
    retry_ambiguous_date_with_swap = retry;
  }

  abbrev pub started : Bool → Parser
  started m = record (fresh m) { state_date = date_digit }

  abbrev pub behind_first : Bool → Parser
  behind_first m =
      let q =
        digit_slash 2 (record (started m) { state_date = date_digit_slash; ambiguous_md = true }) in
      record q { part1_len = pos 2 }

  abbrev pub behind_second : Bool → Parser
  behind_second m = if m then second_day 5 (behind_first m) else second_month 5 (behind_first m)

  -- The first slash has no letter behind it.
  first_slash : (m : Bool) → date_turn u s 2 (started m) ≡ next (pos 2) (behind_first m)
  unfolding date_step digit_step new_parser apply_options
  first_slash m =
      date_turn-ascii u s 2 (started m) (omega arith) (omega arith)
      ∙ rw (is_letter-digit u b0 digits.1.1.0, digit_step) refl

  -- The loop, given what the second slash does.
  loop_of :
      (m : Bool)
      → Passes (behind_first m).state_date
      → Passes (behind_second m).state_date
      → date_turn u s 5 (behind_first m) ≡ next (pos 5) (behind_second m)
      → loop (date_turn u) 12 s (pos 0) (fresh m) ≡ ok (behind s (pos 10) (behind_second m))
  unfolding new_parser apply_options
  loop_of m h g second =
      loop-start u 11 s (fresh m) refl (omega arith) digits.0
      ∙ loop-digits u 1 10 s 1 (started m) tt (ground arith)
      ∙ loop-next (date_turn u) 9 s 2 (started m) (behind_first m) (omega arith) (first_slash m)
      ∙ loop-digits u 2 7 s 3 (behind_first m) h (ground arith)
      ∙ loop-next (date_turn u) 6 s 5 (behind_first m) (behind_second m) (omega arith) second
      ∙ loop-digits u 4 2 s 6 (behind_second m) g (ground arith)
      ∙ loop-behind (date_turn u) 1 s (behind_second m)

  slashed_loop :
      (m : Bool)
      → loop (date_turn u) 12 s (pos 0) (fresh m) ≡ ok (behind s (pos 10) (behind_second m))
  unfolding new_parser apply_options digit_slash second_day second_month set put_all set_month
      set_day date_step slash_step ◌-ℤ◌ int64 uint64
  slashed_loop true =
      loop_of true tt tt (date_turn-ascii u s 5 (behind_first true) (omega arith) (omega arith))
  slashed_loop false =
      loop_of false tt tt (date_turn-ascii u s 5 (behind_first false) (omega arith) (omega arith))

  -- The parser that is returned.
  abbrev pub result : Bool → Parser
  result m = coalesce_date (pos 10) (behind_second m)

  pub slashed_once : (m : Bool) → parse_once u s (fresh m) ≡ ok (gave s (accept (result m)))
  unfolding parse_once behind_date new_parser apply_options digit_slash second_day second_month set
      put_all set_month set_day set_year coalesce_date date_end date_end_at ◌-ℤ◌ int64 uint64
  slashed_once true = ap (λ x. bind x (behind_date u)) (slashed_loop true)
  slashed_once false = ap (λ x. bind x (behind_date u)) (slashed_loop false)

  -- It is ambiguous, and `parse` reads the text in the layout with the preferred number first.
  pub result_facts :
      (m : Bool)
      → ((result m).ambiguous_md ≡ true)
        × ((result m).prefer_month_first ≡ m)
        × (prepared (result m) ≡ ok (result m))
        × ((read : Reader) → parse read (result m) ≡ read loc (layout m) s)
  unfolding prepared parse with_full_month without_skip new_parser apply_options digit_slash
      second_day second_month set put_all set_month set_day set_year coalesce_date ◌-ℤ◌ int64 uint64
  result_facts true = (refl, refl, refl, λ read. refl)
  result_facts false = (refl, refl, refl, λ read. refl)

-- A date of 2, 2 and 4 digits with slashes, without the retry: the first number is the month if the
-- month is preferred, and the day otherwise, whatever the location is. The layout is used once, and a
-- strict parse is refused.
pub parse_date_in-slashed :
    (u : Tables) (read : Reader) (a0 a1 b0 b1 y0 y1 y2 y3 : ℕ) (loc : Option Bytes) (m : Bool)
    → AllDigits (a0 ∷ a1 ∷ b0 ∷ b1 ∷ y0 ∷ y1 ∷ y2 ∷ y3 ∷ [])
    → (parse_date_in u read (slashed a0 a1 b0 b1 y0 y1 y2 y3) loc (preferring m false)
        ≡ read loc (layout m) (slashed a0 a1 b0 b1 y0 y1 y2 y3))
      × (parse_data_strict u read (slashed a0 a1 b0 b1 y0 y1 y2 y3) (preferring m false)
          ≡ fail ambiguous)
unfolding parse_date_in parse_data_strict then_parse new_parser apply_options prefer_month_first
    retry_ambiguous_date_with_swap
parse_date_in-slashed u read a0 a1 b0 b1 y0 y1 y2 y3 loc m digits =
    let s = slashed a0 a1 b0 b1 y0 y1 y2 y3 in
    let opts = preferring m false in
    let anywhere = result u a0 a1 b0 b1 y0 y1 y2 y3 loc false digits m in
    let here = result u a0 a1 b0 b1 y0 y1 y2 y3 none false digits m in
    (
      ap (λ x. bind x (then_parse (parse read)))
            (parse_time-fuel u read s s loc opts (accept anywhere)
              (slashed_once u a0 a1 b0 b1 y0 y1 y2 y3 loc false digits m) refl)
          ∙ (result_facts u a0 a1 b0 b1 y0 y1 y2 y3 loc false digits m).3 read,
      ap (λ x. bind x (then_parse (strictly read)))
            (parse_time-fuel u read s s none opts (accept here)
              (slashed_once u a0 a1 b0 b1 y0 y1 y2 y3 none false digits m) refl)
          ∙ ap (λ b. if b then fail ambiguous else parse read here)
              ((result_facts u a0 a1 b0 b1 y0 y1 y2 y3 none false digits m).0),
    )
