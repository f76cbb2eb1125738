-- ===== src/DateParse/Strict.antt =====
-- `ParseDataStrict` beside `ParseDateAny`.
use watchmaker.Prelude.{
  ◌≡◌, refl, List, false, Bool-cases, inl, inr, Option, none, some, if◌then◌else◌, ap, ◌∙◌, sym,
}
use watchmaker.Prelude.Int.{ℤ}
use watchmaker.Prelude.Outcome.{Outcome, ok, fail, panic, hung}
use watchmaker.Go.Text.{Bytes}
use watchmaker.Errors.{Error, ambiguous}
use watchmaker.DateParse.Fields.{Parser, ParserOption}
use watchmaker.DateParse.Time.{Reader, bind, parse}
use watchmaker.DateParse.Runes.{Tables}
use watchmaker.DateParse.Steps.{Found}
use watchmaker.DateParse.Whole.{parse_time}
use watchmaker.DateParse.Exported.{fuel, then_parse, strictly, parse_date_any, parse_data_strict}

-- The text has no ambiguity between the day and the month.
abbrev pub IsClear : Outcome Error Found → Type 0
IsClear x =
    (p : Parser) × (x ≡ ok (record { parser = some p; error = none })) × (p.ambiguous_md ≡ false)

module _ (read : Reader) (t : ℤ) where
  strict_parser :
      (p : Parser) → strictly read p ≡ ok t → (p.ambiguous_md ≡ false) × (parse read p ≡ ok t)
  strict_parser p h = elim (Bool-cases p.ambiguous_md) [
    | inl e ↦
        let clash = sym (ap (λ b. if b then fail ambiguous else parse read p) e) ∙ h in absurd (cc)
    | inr e ↦ (e, sym (ap (λ b. if b then fail ambiguous else parse read p) e) ∙ h)
  ]

  strict_results :
      (o : Option Parser) (e : Option Error)
      → then_parse (strictly read) (record { parser = o; error = e }) ≡ ok t
      → IsClear (ok (record { parser = o; error = e }))
        × (then_parse (parse read) (record { parser = o; error = e }) ≡ ok t)
  unfolding then_parse
  strict_results o (some e) h = absurd (cc)
  strict_results none none h = absurd (cc)
  strict_results (some p) none h = let (clear, same) = strict_parser p h in ((p, refl, clear), same)

  strict_outcome :
      (x : Outcome Error Found)
      → bind x (then_parse (strictly read)) ≡ ok t
      → IsClear x × (bind x (then_parse (parse read)) ≡ ok t)
  strict_outcome (ok f) h = strict_results f.parser f.error h
  strict_outcome (fail e) h = absurd (cc)
  strict_outcome panic h = absurd (cc)
  strict_outcome hung h = absurd (cc)

-- A text that `ParseDataStrict` reads as a time is not ambiguous, and `ParseDateAny` reads it as the
-- same time, with the same options.
pub parse_data_strict-ok :
    (u : Tables) (read : Reader) (s : Bytes) (opts : List ParserOption) (t : ℤ)
    → parse_data_strict u read s opts ≡ ok t
    → IsClear (parse_time u read (fuel s) s none opts) × (parse_date_any u read s opts ≡ ok t)
unfolding parse_data_strict parse_date_any
parse_data_strict-ok u read s opts t h =
    strict_outcome read t (parse_time u read (fuel s) s none opts) h
