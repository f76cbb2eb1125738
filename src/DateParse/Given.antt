-- ===== src/DateParse/Given.antt =====
-- `parseTime` where one run gives the results.
use watchmaker.Prelude.{
  ℕ, suc, ◌+◌, ◌*◌, ◌≡◌, ap, ◌∙◌, List, Bool, true, false, Option, arith, length,
}
use watchmaker.Prelude.Outcome.{ok}
use watchmaker.Go.Text.{Bytes}
use watchmaker.DateParse.Fields.{ParserOption, new_parser}
use watchmaker.DateParse.Time.{Reader, bind}
use watchmaker.DateParse.Runes.{Tables}
use watchmaker.DateParse.Steps.{Found}
use watchmaker.DateParse.Loop.{gave}
use watchmaker.DateParse.Whole.{Call, parse_once, deferred, returned, parse_time}
use watchmaker.DateParse.Exported.{fuel}

module _ (u : Tables) (read : Reader) (s t : Bytes) (loc : Option Bytes) (opts : List ParserOption)
    (f : Found) (once : parse_once u s (new_parser s loc opts) ≡ ok (gave t f)) where
  run :
      (retries : Bool) (call : Call)
      → bind (parse_once u s (new_parser s loc opts)) (returned read call retries loc opts)
        ≡ returned read call retries loc opts (gave t f)
  run retries call = ap (λ x. bind x (returned read call retries loc opts)) once

  -- Without the retry.
  pub parse_time-gave :
      (n : ℕ)
      → (new_parser s loc opts).retry_ambiguous_date_with_swap ≡ false
      → parse_time u read (suc n) s loc opts ≡ ok f
  unfolding parse_time returned
  parse_time-gave n quiet =
      run (new_parser s loc opts).retry_ambiguous_date_with_swap (parse_time u read n)
      ∙ ap (λ b. returned read (parse_time u read n) b loc opts (gave t f)) quiet

  -- With the retry.
  pub parse_time-deferred :
      (n : ℕ)
      → (new_parser s loc opts).retry_ambiguous_date_with_swap ≡ true
      → parse_time u read (suc n) s loc opts ≡ deferred read (parse_time u read n) t opts f
  unfolding parse_time returned
  parse_time-deferred n retries =
      run (new_parser s loc opts).retry_ambiguous_date_with_swap (parse_time u read n)
      ∙ ap (λ b. returned read (parse_time u read n) b loc opts (gave t f)) retries

  pub parse_time-fuel :
      (new_parser s loc opts).retry_ambiguous_date_with_swap ≡ false
      → parse_time u read (fuel s) s loc opts ≡ ok f
  parse_time-fuel quiet =
      ap (λ n. parse_time u read n s loc opts) (omega arith)
      ∙ parse_time-gave (4 * length s + 1) quiet
