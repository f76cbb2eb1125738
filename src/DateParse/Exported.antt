-- ===== src/DateParse/Exported.antt =====
-- date_parse.go: the functions that the package exports.
use watchmaker.Prelude.{ℕ, ◌+◌, ◌*◌, List, if◌then◌else◌, length, Option, some, none}
use watchmaker.Prelude.Int.{ℤ}
use watchmaker.Prelude.Outcome.{Outcome, ok, fail, panic, hung}
use watchmaker.Go.Text.{Bytes, codes}
use watchmaker.Errors.{Error, ambiguous}
use watchmaker.DateParse.Fields.{Parser, ParserOption}
use watchmaker.DateParse.Time.{Reader, parse, bind}
use watchmaker.DateParse.Runes.{Tables}
use watchmaker.DateParse.Steps.{Found}
use watchmaker.DateParse.Whole.{parse_time, prepared}

-- Enough for the calls of `parseTime` in itself.
abbrev pub fuel : Bytes → ℕ
fuel s = 4 * length s + 2

-- The rest of an exported function. A parser that is `nil` is dereferenced.
unfoldable pub then_parse : (Parser → Outcome Error ℤ) → Found → Outcome Error ℤ
then_parse f found = elim found.error [
  | some e ↦ fail e
  | none ↦ elim found.parser [ none ↦ panic | some p ↦ f p ]
]

-- `ParseDataStrict` of a parser: it refuses an ambiguous one.
abbrev pub strictly : Reader → Parser → Outcome Error ℤ
strictly read p = if p.ambiguous_md then fail ambiguous else parse read p

module _ (u : Tables) (read : Reader) where
  -- `ParseDateAny`, `ParseDateIn` and `ParseDateLocal`.
  unfoldable pub parse_date_any : Bytes → List ParserOption → Outcome Error ℤ
  unfolding then_parse
  parse_date_any s opts = bind (parse_time u read (fuel s) s none opts) (then_parse (parse read))

  unfoldable pub parse_date_in : Bytes → Option Bytes → List ParserOption → Outcome Error ℤ
  unfolding then_parse
  parse_date_in s loc opts = bind (parse_time u read (fuel s) s loc opts) (then_parse (parse read))

  unfoldable pub parse_date_local : Bytes → List ParserOption → Outcome Error ℤ
  unfolding then_parse
  parse_date_local s opts =
      bind (parse_time u read (fuel s) s (some (codes "Local")) opts) (then_parse (parse read))

  -- `MustParse`.
  unfoldable pub must_parse : Bytes → List ParserOption → Outcome Error ℤ
  unfolding then_parse
  must_parse s opts =
      elim (bind (parse_time u read (fuel s) s none opts) (then_parse (parse read))) [
        | ok t ↦ ok t
        | fail e ↦ panic
        | panic ↦ panic
        | hung ↦ hung
      ]

  -- `ParseDataStrict`.
  unfoldable pub parse_data_strict : Bytes → List ParserOption → Outcome Error ℤ
  unfolding then_parse
  parse_data_strict s opts =
      bind (parse_time u read (fuel s) s none opts) (then_parse (strictly read))

  -- `ParseDateFormat`: the layout as `parse` leaves it.
  unfoldable pub layout_of : Found → Outcome Error Bytes
  layout_of found = elim found.error [
    | some e ↦ fail e
    | none ↦ elim found.parser [
      | none ↦ panic
      | some p ↦ bind (parse read p) (λ t. bind (prepared p) (λ q. ok q.format))
    ]
  ]

  unfoldable pub parse_date_format : Bytes → List ParserOption → Outcome Error Bytes
  unfolding layout_of
  parse_date_format s opts = bind (parse_time u read (fuel s) s none opts) layout_of
