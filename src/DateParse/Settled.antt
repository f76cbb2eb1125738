-- ===== src/DateParse/Settled.antt =====
-- The exported functions without the retry: they neither panic nor run out of fuel.
use watchmaker.Prelude.{
  ℕ, zero, suc, ◌+◌, ◌*◌, ◌≡◌, ◌≤◌, ◌<◌, List, [], Bool, true, false, arith, Option, none, some,
  length, if◌then◌else◌,
}
use watchmaker.Prelude.Int.{ℤ}
use watchmaker.Prelude.Outcome.{Outcome, ok, fail, panic, hung}
use watchmaker.Go.Text.{Bytes}
use watchmaker.Go.Words.{two_63}
use watchmaker.Errors.{Error, ambiguous}
use watchmaker.DateParse.Fields.{Parser, ParserOption, new_parser}
use watchmaker.DateParse.Time.{Reader, bind, parse}
use watchmaker.DateParse.Runes.{Tables}
use watchmaker.DateParse.Steps.{Found}
use watchmaker.DateParse.Weight.{weight, weight-le, length-le}
use watchmaker.DateParse.Loop.{Reply, gave, calls}
use watchmaker.DateParse.Usable.{
  Usable, UsableAt, UsableFound, Settles, AlwaysSettles, prepared-Gives, parse-Settles,
}
use watchmaker.DateParse.Date.Month.Words.{LowersMonths}
use watchmaker.DateParse.Once.{Replied, parse_once-Replied}
use watchmaker.DateParse.Ready.{IsReady, parse_once-IsReady}
use watchmaker.DateParse.Returns.{
  SetFlags, Quiet, Answers, new_parser-IsNew, kept-SetFlags, kept-Quiet, parse_time-Answers,
}
use watchmaker.DateParse.Whole.{Call, prepared, parse_once, returned, parse_time}
use watchmaker.DateParse.Exported.{
  fuel, then_parse, strictly, layout_of, parse_date_any, parse_date_in, parse_data_strict,
  parse_date_format,
}

-- The results of a call, if it returns any.
abbrev UsableResult : Outcome Error Found → Type 0
UsableResult (ok f) = UsableFound f
UsableResult _ = Unit

returned-UsableResult :
    (read : Reader) (s : Bytes) (loc : Option Bytes) (opts : List ParserOption) (call : Call)
    (retries : Bool) (x : Outcome Error Reply)
    → retries ≡ false
    → ((text : Bytes) (kept : Bool)
        → weight text + 1 ≤ weight s
        → UsableResult (call text loc (if kept then opts else [])))
    → Replied s x
    → IsReady x
    → UsableResult (bind x (returned read call retries loc opts))
unfolding returned
returned-UsableResult read s loc opts call true x e more r h = absurd (cc)
returned-UsableResult read s loc opts call false (ok (gave t f)) e more r h = h
returned-UsableResult read s loc opts call false (ok (calls local text kept)) e more r h =
    same (call text loc (if kept then opts else [])) (more text kept r.0)
  where
    same : (y : Outcome Error Found) → UsableResult y → UsableResult (bind y (λ f. ok f))
    same (ok f) g = g
    same (fail e) g = tt
    same panic g = tt
    same hung g = tt
returned-UsableResult read s loc opts call false (fail x) e more d h = elim d [ ]
returned-UsableResult read s loc opts call false panic e more d h = elim d [ ]
returned-UsableResult read s loc opts call false hung e more d h = elim d [ ]

module _ (u : Tables) (read : Reader) (low : LowersMonths u) where
  -- Without the retry, `parseTime` gives an error or a parser on which `parse` does not panic.
  parse_time-UsableResult :
      (n : ℕ) (s : Bytes) (loc : Option Bytes) (opts : List ParserOption)
      → SetFlags opts
      → Quiet opts
      → weight s < two_63
      → UsableResult (parse_time u read n s loc opts)
  unfolding parse_time
  parse_time-UsableResult zero s loc opts f q short = tt
  parse_time-UsableResult (suc n) s loc opts f q short =
      let p = new_parser s loc opts in
      let new = new_parser-IsNew s loc opts f in
      let less : length s < two_63 = omega (arith, length-le s) in
      returned-UsableResult read s loc opts (parse_time u read n) p.retry_ambiguous_date_with_swap
        (parse_once u s p) (q s loc)
        (λ text kept lighter.
          parse_time-UsableResult n text loc (if kept then opts else []) (kept-SetFlags kept opts f)
            (kept-Quiet kept opts q) (omega arith))
        (parse_once-Replied u s p less new) (parse_once-IsReady u s p low less new)

settled :
    {A : Type 0} (x : Outcome Error Found) (g : Found → Outcome Error A)
    → Answers x
    → UsableResult x
    → ((f : Found) → UsableFound f → Settles (g f))
    → Settles (bind x g)
settled x g (f, returns, proper) usable h = go x returns usable
  where
    go : (y : Outcome Error Found) → y ≡ ok f → UsableResult y → Settles (bind y g)
    go (ok k) e k_usable = h k k_usable
    go (fail k) e w = absurd (cc)
    go panic e w = absurd (cc)
    go hung e w = absurd (cc)

then_parse-Settles :
    (g : Parser → Outcome Error ℤ) (f : Found)
    → ((p : Parser) → Usable p → Settles (g p))
    → UsableFound f
    → Settles (then_parse g f)
unfolding then_parse
then_parse-Settles g f h usable = go f.error f.parser usable
  where
    go :
        (e : Option Error) (o : Option Parser)
        → UsableAt e o
        → Settles (then_parse g (record { parser = o; error = e }))
    go (some e) o w = tt
    go none (some p) w = h p w
    go none none w = elim w [ ]

strictly-Settles :
    (read : Reader) (p : Parser) → AlwaysSettles read → Usable p → Settles (strictly read p)
strictly-Settles read p h usable = go p.ambiguous_md
  where
    go : (b : Bool) → Settles (if b then fail ambiguous else parse read p)
    go true = tt
    go false = parse-Settles read p h usable

layout-Settles :
    (read : Reader) (p : Parser) (x : Outcome Error ℤ)
    → Usable p
    → Settles x
    → Settles (bind x (λ t. bind (prepared p) (λ q. ok q.format)))
layout-Settles read p (ok t) usable h =
    let (q, returns, nothing) = prepared-Gives p usable in rw returns tt
layout-Settles read p (fail e) usable h = tt
layout-Settles read p panic usable h = h
layout-Settles read p hung usable h = h

layout_of-Settles :
    (u : Tables) (read : Reader) (f : Found)
    → AlwaysSettles read
    → UsableFound f
    → Settles (layout_of u read f)
unfolding layout_of
layout_of-Settles u read f h usable = go f.error f.parser usable
  where
    go :
        (e : Option Error) (o : Option Parser)
        → UsableAt e o
        → Settles (layout_of u read (record { parser = o; error = e }))
    go (some e) o w = tt
    go none (some p) w = layout-Settles read p (parse read p) w (parse-Settles read p h w)
    go none none w = elim w [ ]

-- A function that calls `parseTime` with the fuel of the text, and goes on with its results.
call-Settles :
    {A : Type 0} (u : Tables) (read : Reader) (s : Bytes) (loc : Option Bytes)
    (opts : List ParserOption) (g : Found → Outcome Error A)
    → LowersMonths u
    → SetFlags opts
    → Quiet opts
    → 2 * length s < two_63
    → ((f : Found) → UsableFound f → Settles (g f))
    → Settles (bind (parse_time u read (fuel s) s loc opts) g)
call-Settles u read s loc opts g low flags quiet short h =
    let size : weight s < two_63 = omega (arith, weight-le s) in
    settled (parse_time u read (fuel s) s loc opts) g
      (parse_time-Answers u read (fuel s) s loc opts flags quiet (omega (arith, weight-le s)) size)
      (parse_time-UsableResult u read low (fuel s) s loc opts flags quiet size) h

-- For a text of less than 2^62 bytes, with options that set flags only and leave the retry off, with
-- a reader that always returns, and with tables in which the name of a month is no longer than the
-- text that it is the lower case of: the exported functions return a time, a layout or an error.
-- They do not panic, and their fuel is enough.
pub parse_date_in-Settles :
    (u : Tables) (read : Reader) (s : Bytes) (loc : Option Bytes) (opts : List ParserOption)
    → LowersMonths u
    → AlwaysSettles read
    → SetFlags opts
    → Quiet opts
    → 2 * length s < two_63
    → Settles (parse_date_in u read s loc opts)
      × Settles (parse_date_any u read s opts)
      × Settles (parse_data_strict u read s opts)
      × Settles (parse_date_format u read s opts)
unfolding parse_date_in parse_date_any parse_data_strict parse_date_format
parse_date_in-Settles u read s loc opts low h flags quiet short =
    let parsed : (f : Found) → UsableFound f → Settles (then_parse (parse read) f) =
      λ f w. then_parse-Settles (parse read) f (λ p v. parse-Settles read p h v) w in
    let strict : (f : Found) → UsableFound f → Settles (then_parse (strictly read) f) =
      λ f w. then_parse-Settles (strictly read) f (λ p v. strictly-Settles read p h v) w in
    (
      call-Settles u read s loc opts (then_parse (parse read)) low flags quiet short parsed,
      call-Settles u read s none opts (then_parse (parse read)) low flags quiet short parsed,
      call-Settles u read s none opts (then_parse (strictly read)) low flags quiet short strict,
      call-Settles u read s none opts (layout_of u read) low flags quiet short
          (λ f w. layout_of-Settles u read f h w),
    )
