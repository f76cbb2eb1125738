-- ===== src/DateParse/Steps.antt =====
-- What one turn of a loop of `parseTime` does, and what `parseTime` returns.
use watchmaker.Prelude.{ℕ, ◌≡◌, ◌≢◌, Bool, Option, none, some}
use watchmaker.Prelude.Int.{ℤ, pos, ◌-ℤ◌}
use watchmaker.Prelude.Outcome.{Outcome, ok, fail, panic, hung}
use watchmaker.Go.Text.{Bytes}
use watchmaker.Go.Words.{wrap64}
use watchmaker.Errors.{Error}
use watchmaker.DateParse.Fields.{Parser}

-- The named results `p` and `err`.
pub record Found : Type 0 where
  pub parser : Option Parser
  pub error : Option Error

-- `next`: the turn is over, and the index is raised. `leave`: the loop is left. `swap`: `datestr` has
-- a new value, and the turn is over. `again`: `datestr` has this value, and `parseTime` is called
-- with another text, with the options or with none.
pub data Step : Type 0 where
  next leave : ℤ → Parser → Step
  swap : Bytes → ℤ → Parser → Step
  gives : Found → Step
  again : Bytes → Bytes → Bool → Step
  crash : Step

-- `return nil, err`, `return p, nil` and `return p, err`.
abbrev pub refuse : Error → Found
refuse e = record { parser = none; error = some e }

abbrev pub accept : Parser → Found
accept p = record { parser = some p; error = none }

abbrev pub with_error : Parser → Error → Found
with_error p e = record { parser = some p; error = some e }

-- Where there is no error, there is a parser.
abbrev pub IsProper : Found → Type 0
IsProper f = f.error ≡ none → f.parser ≢ none

-- `i - z`.
abbrev pub minus : ℕ → ℤ → ℤ
minus i z = wrap64 (pos i -ℤ z)

-- A call that changes the parser or panics.
abbrev pub after : Outcome Error Parser → (Parser → Step) → Step
after (ok q) f = f q
after (fail e) f = gives (refuse e)
after panic f = crash
after hung f = crash
