-- ===== src/DateParse/Swapped.antt =====
-- Dates with slashes, and the retry with the day and the month swapped.
use watchmaker.Prelude.{
  ℕ, ◌≡◌, ◌∙◌, refl, ap, List, [], ◌∷◌, ◌++◌, Bool, true, false, Bool-cases, inl, inr, not, Option,
  some, if◌then◌else◌,
}
use watchmaker.Prelude.Int.{ℤ}
use watchmaker.Prelude.Outcome.{Outcome, ok, fail, panic, hung}
use watchmaker.Go.Text.{Bytes, codes}
use watchmaker.Errors.{Error}
use watchmaker.DateParse.Fields.{
  Parser, ParserOption, prefer_month_first, retry_ambiguous_date_with_swap, new_parser,
  apply_options,
}
use watchmaker.DateParse.Time.{Reader, bind, parse}
use watchmaker.DateParse.Runes.{Tables}
use watchmaker.DateParse.Steps.{accept}
use watchmaker.DateParse.Whole.{prepared, retried, deferred, swapped, is_month_error, parse_time}
use watchmaker.DateParse.Exported.{then_parse, parse_date_in}
use watchmaker.DateParse.Given.{parse_time-gave, parse_time-deferred}
use watchmaker.DateParse.Runs.{AllDigits}
use watchmaker.DateParse.Slashed.{slashed, layout, preferring, result, slashed_once, result_facts}

-- What the retry makes of a text: where its month is out of range, it is read once more, with the
-- other number as the month, in the local time zone.
abbrev pub second_try : Reader → Bool → Bytes → Outcome Error ℤ → Outcome Error ℤ
second_try read m s (ok t) = ok t
second_try read m s (fail e) =
    if is_month_error e then read (some (codes "Local")) (layout (not m)) s else fail e
second_try read m s panic = panic
second_try read m s hung = hung

module _ (u : Tables) (read : Reader) (a0 a1 b0 b1 y0 y1 y2 y3 : ℕ) (loc : Option Bytes) (m : Bool)
    (digits : AllDigits (a0 ∷ a1 ∷ b0 ∷ b1 ∷ y0 ∷ y1 ∷ y2 ∷ y3 ∷ [])) where
  abbrev text : Bytes
  text = slashed a0 a1 b0 b1 y0 y1 y2 y3

  abbrev first : Parser
  first = result u a0 a1 b0 b1 y0 y1 y2 y3 loc true digits m

  abbrev opts : List ParserOption
  opts = preferring m true

  -- The second attempt finds the other layout.
  second_run :
      parse_time u read 41 text (some (codes "Local")) (swapped opts first)
      ≡ ok (accept (result u a0 a1 b0 b1 y0 y1 y2 y3 (some (codes "Local")) false digits (not m)))
  unfolding new_parser apply_options prefer_month_first retry_ambiguous_date_with_swap
  second_run =
      let there = some (codes "Local") in
      let other = result u a0 a1 b0 b1 y0 y1 y2 y3 there false digits (not m) in
      ap
        (λ b.
          parse_time u read 41 text there
            (opts ++ prefer_month_first (not b) ∷ retry_ambiguous_date_with_swap false ∷ []))
        ((result_facts u a0 a1 b0 b1 y0 y1 y2 y3 loc true digits m).1)
      ∙ parse_time-gave u read text text there
          (opts ++ prefer_month_first (not m) ∷ retry_ambiguous_date_with_swap false ∷ [])
          (accept other) (slashed_once u a0 a1 b0 b1 y0 y1 y2 y3 there false digits (not m)) 40 refl

  retried_as :
      (x : Outcome Error ℤ)
      → parse read first ≡ x
      → bind
          (retried (parse_time u read 41) text opts x (accept first) first)
          (then_parse (parse read))
        ≡ second_try read m text x
  unfolding retried then_parse
  retried_as (ok t) h = h
  retried_as panic h = refl
  retried_as hung h = refl
  retried_as (fail e) h = elim (Bool-cases (is_month_error e)) [
    | inl month ↦
        rw (month, second_run)
          ((result_facts u a0 a1 b0 b1 y0 y1 y2 y3 (some (codes "Local")) false digits (not m)).3
            read)
    | inr other ↦ rw other h
  ]

  deferred_as :
      deferred read (parse_time u read 41) text opts (accept first)
      ≡ retried (parse_time u read 41) text opts (parse read first) (accept first) first
  unfolding deferred
  deferred_as =
      let more = retried (parse_time u read 41) text opts (parse read first) (accept first) in
      ap (λ b. if b then bind (prepared first) more else ok (accept first))
        ((result_facts u a0 a1 b0 b1 y0 y1 y2 y3 loc true digits m).0)
      ∙ ap (λ x. bind x more) ((result_facts u a0 a1 b0 b1 y0 y1 y2 y3 loc true digits m).2)

  -- A date of 2, 2 and 4 digits with slashes, with the retry: where its month is out of range it is read
  -- a second time with the other number as the month, in the local time zone whatever the location is;
  -- otherwise it is read once.
  pub parse_date_in-retry :
      parse_date_in u read text loc opts ≡ second_try read m text (read loc (layout m) text)
  unfolding parse_date_in new_parser apply_options prefer_month_first retry_ambiguous_date_with_swap
  parse_date_in-retry =
      let run =
        parse_time-deferred u read text text loc opts (accept first)
          (slashed_once u a0 a1 b0 b1 y0 y1 y2 y3 loc true digits m) 41 refl in
      ap (λ x. bind x (then_parse (parse read))) (run ∙ deferred_as)
      ∙ retried_as (parse read first) refl
      ∙ ap (second_try read m text)
          ((result_facts u a0 a1 b0 b1 y0 y1 y2 y3 loc true digits m).3 read)
