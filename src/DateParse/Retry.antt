-- ===== src/DateParse/Retry.antt =====
-- `parseTime` with its deferred function: its fuel is enough.
use watchmaker.Prelude.{
  ℕ, zero, suc, ◌+◌, ◌*◌, ◌≡◌, ◌≤◌, ◌<◌, refl, List, [], Bool, true, false, arith, Option, none,
  some, if◌then◌else◌,
}
use watchmaker.Prelude.Int.{ℤ}
use watchmaker.Prelude.Outcome.{Outcome, ok, fail, panic, hung}
use watchmaker.Prelude.Finishes.{Ends}
use watchmaker.Go.Text.{Bytes, codes}
use watchmaker.Go.Words.{two_63}
use watchmaker.Errors.{Error}
use watchmaker.DateParse.Fields.{Parser, ParserOption, new_parser}
use watchmaker.DateParse.Time.{Reader, bind, parse, with_full_month, without_skip, set_full_month}
use watchmaker.DateParse.Runes.{Tables}
use watchmaker.DateParse.Steps.{Found}
use watchmaker.DateParse.Weight.{weight, length-le}
use watchmaker.DateParse.Loop.{Reply, gave, calls}
use watchmaker.DateParse.Once.{Replied, parse_once-Replied}
use watchmaker.DateParse.Whole.{
  Call, parse_once, prepared, retried, deferred, returned, swapped, is_month_error, parse_time,
}
use watchmaker.DateParse.Returns.{
  SetFlags, Answers, new_parser-IsNew, kept-SetFlags, swapped-SetFlags, swapped-Quiet,
  parse_time-Answers,
}

-- A reader that does not hang, as `time.Parse` does not.
abbrev pub AlwaysEnds : Reader → Type 0
AlwaysEnds read = (loc : Option Bytes) (layout text : Bytes) → Ends (read loc layout text)

bind-Ends :
    {A B : Type 0} (x : Outcome Error A) (f : A → Outcome Error B)
    → Ends x
    → ((a : A) → x ≡ ok a → Ends (f a))
    → Ends (bind x f)
bind-Ends (ok a) f h g = g a refl
bind-Ends (fail e) f h g = tt
bind-Ends panic f h g = tt
bind-Ends hung f h g = h

if-Ends :
    {A : Type 0} (b : Bool) (x y : Outcome Error A) → Ends x → Ends y → Ends (if b then x else y)
if-Ends true x y h g = h
if-Ends false x y h g = g

with_full_month-Ends : (p : Parser) → Ends (with_full_month p)
unfolding with_full_month set_full_month
with_full_month-Ends p = ground arith

without_skip-Ends : (p : Parser) → Ends (without_skip p)
unfolding without_skip
without_skip-Ends p = ground arith

prepared-Ends : (p : Parser) → Ends (prepared p)
unfolding prepared
prepared-Ends p = go p.t
  where
    go :
        (t : Option ℤ)
        → Ends (elim t as (λ _. Outcome Error Parser) [
          | some k ↦ ok p
          | none ↦ bind (with_full_month p) without_skip
        ])
    go (some k) = tt
    go none =
        bind-Ends (with_full_month p) without_skip (with_full_month-Ends p)
          (λ q e. without_skip-Ends q)

parse-Ends : (read : Reader) (p : Parser) → AlwaysEnds read → Ends (parse read p)
unfolding parse
parse-Ends read p h = go p.t
  where
    go :
        (t : Option ℤ)
        → Ends (elim t as (λ _. Outcome Error ℤ) [
          | some k ↦ ok k
          | none ↦
              bind (with_full_month p) λ q. bind (without_skip q) λ r. read r.loc r.format r.datestr
        ])
    go (some k) = tt
    go none = bind-Ends (with_full_month p) _ (with_full_month-Ends p) (λ q e.
        bind-Ends (without_skip q) _ (without_skip-Ends q) (λ r g. h r.loc r.format r.datestr))

retried-Ends :
    (call : Call) (s : Bytes) (opts : List ParserOption) (x : Outcome Error ℤ) (f : Found)
    (p : Parser)
    → Ends x
    → Ends (call s (some (codes "Local")) (swapped opts p))
    → Ends (retried call s opts x f p)
unfolding retried
retried-Ends call s opts (ok t) f p h g = tt
retried-Ends call s opts panic f p h g = tt
retried-Ends call s opts hung f p h g = h
retried-Ends call s opts (fail e) f p h g =
    if-Ends (is_month_error e) _ (ok (record f { parser = some p }))
      (bind-Ends (call s (some (codes "Local")) (swapped opts p)) _ g (λ found returns. tt)) tt

deferred-Ends :
    (read : Reader) (call : Call) (s : Bytes) (opts : List ParserOption) (f : Found)
    → AlwaysEnds read
    → ((p : Parser) → Ends (call s (some (codes "Local")) (swapped opts p)))
    → Ends (deferred read call s opts f)
unfolding deferred
deferred-Ends read call s opts f h g = go f.parser
  where
    go :
        (o : Option Parser)
        → Ends (elim o as (λ _. Outcome Error Found) [
          | none ↦ ok f
          | some p ↦
              if p.ambiguous_md
              then bind (prepared p) (λ q. retried call s opts (parse read p) f q)
              else ok f
        ])
    go none = tt
    go (some p) =
        if-Ends p.ambiguous_md _ (ok f)
          (bind-Ends (prepared p) _ (prepared-Ends p)
            (λ q e. retried-Ends call s opts (parse read p) f q (parse-Ends read p h) (g q)))
          tt

returned-Ends :
    (read : Reader) (s : Bytes) (loc : Option Bytes) (opts : List ParserOption) (call : Call)
    (retries : Bool) (x : Outcome Error Reply)
    → AlwaysEnds read
    → ((text : Bytes) (kept : Bool)
        → weight text + 1 ≤ weight s
        → Ends (call text loc (if kept then opts else [])))
    → ((local : Bytes) (p : Parser)
        → weight local ≤ weight s
        → Ends (call local (some (codes "Local")) (swapped opts p)))
    → Replied s x
    → Ends (bind x (returned read call retries loc opts))
unfolding returned
returned-Ends read s loc opts call retries (ok (gave t f)) h more retry r =
    if-Ends retries (deferred read call t opts f) (ok f)
      (deferred-Ends read call t opts f h (λ p. retry t p r.0)) tt
returned-Ends read s loc opts call retries (ok (calls local text kept)) h more retry r =
    bind-Ends (call text loc (if kept then opts else [])) _ (more text kept r.0) (λ f e.
      if-Ends retries (deferred read call local opts f) (ok f)
        (deferred-Ends read call local opts f h (λ p. retry local p r.1)) tt)
returned-Ends read s loc opts call retries (fail e) h more retry d = elim d [ ]
returned-Ends read s loc opts call retries panic h more retry d = elim d [ ]
returned-Ends read s loc opts call retries hung h more retry d = elim d [ ]

Answers-Ends : (x : Outcome Error Found) → Answers x → Ends x
Answers-Ends x a = rw (a.1) tt

-- With any of the package's options, the retry included, `parseTime` does not run out of fuel: twice
-- the weight of the text is enough, since the retry is made once.
pub parse_time-Ends :
    (u : Tables) (read : Reader) (n : ℕ) (s : Bytes) (loc : Option Bytes) (opts : List ParserOption)
    → AlwaysEnds read
    → SetFlags opts
    → 2 * weight s + 2 ≤ n
    → weight s < two_63
    → Ends (parse_time u read n s loc opts)
unfolding parse_time
parse_time-Ends u read zero s loc opts h f fuel short = absurd (omega arith)
parse_time-Ends u read (suc n) s loc opts h f fuel short =
    let p = new_parser s loc opts in
    returned-Ends read s loc opts (parse_time u read n) p.retry_ambiguous_date_with_swap
      (parse_once u s p) h
      (λ text kept less.
        parse_time-Ends u read n text loc (if kept then opts else []) h (kept-SetFlags kept opts f)
          (omega arith) (omega arith))
      (λ local q less.
        Answers-Ends (parse_time u read n local (some (codes "Local")) (swapped opts q)) (
          parse_time-Answers u read n local (some (codes "Local")) (swapped opts q)
            (swapped-SetFlags opts q f) (swapped-Quiet opts q) (omega arith) (omega arith)))
      (parse_once-Replied u s p (omega (arith, length-le s)) (new_parser-IsNew s loc opts f))
