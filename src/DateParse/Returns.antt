-- ===== src/DateParse/Returns.antt =====
-- `parseTime` with its own calls, without the retry: it returns.
use watchmaker.Prelude.{
  ℕ, zero, suc, ◌+◌, ◌≡◌, ◌≤◌, ◌<◌, refl, ap, List, [], ◌∷◌, ◌++◌, Bool, true, false, arith, Option,
  not, if◌then◌else◌,
}
use watchmaker.Prelude.Outcome.{Outcome, ok, fail, panic, hung}
use watchmaker.Go.Text.{Bytes}
use watchmaker.Go.Words.{two_63}
use watchmaker.Errors.{Error}
use watchmaker.DateParse.Fields.{
  Parser, ParserOption, new_parser, apply_options, prefer_month_first,
  retry_ambiguous_date_with_swap,
}
use watchmaker.DateParse.Time.{Reader, bind}
use watchmaker.DateParse.Runes.{Tables}
use watchmaker.DateParse.Steps.{Found, IsProper}
use watchmaker.DateParse.Weight.{weight, length-le}
use watchmaker.DateParse.Loop.{Reply, gave, calls}
use watchmaker.DateParse.Once.{Replied, IsNew, parse_once-Replied}
use watchmaker.DateParse.Whole.{Call, parse_once, returned, swapped, parse_time}

-- An option that sets the flags of a parser at most.
abbrev pub OnlyFlags : ParserOption → Type 0
OnlyFlags option = (s : Bytes) (p : Parser) → IsNew s p → IsNew s (option p)

abbrev pub SetFlags : List ParserOption → Type 0
SetFlags [] = Unit
SetFlags (option ∷ options) = OnlyFlags option × SetFlags options

pub prefer-OnlyFlags : (b : Bool) → OnlyFlags (prefer_month_first b)
unfolding prefer_month_first
prefer-OnlyFlags b s p h = h

pub retry-OnlyFlags : (b : Bool) → OnlyFlags (retry_ambiguous_date_with_swap b)
unfolding retry_ambiguous_date_with_swap
retry-OnlyFlags b s p h = h

apply-IsNew :
    (opts : List ParserOption) (s : Bytes) (p : Parser)
    → SetFlags opts
    → IsNew s p
    → IsNew s (apply_options opts p)
unfolding apply_options
apply-IsNew [] s p f h = h
apply-IsNew (o ∷ opts) s p f h = apply-IsNew opts s (o p) f.1 (f.0 s p h)

pub new_parser-IsNew :
    (s : Bytes) (loc : Option Bytes) (opts : List ParserOption)
    → SetFlags opts
    → IsNew s (new_parser s loc opts)
unfolding new_parser
new_parser-IsNew s loc opts f = apply-IsNew opts s _ f (refl, refl, refl, refl, refl, refl, refl)

-- The options leave the retry off.
abbrev pub Quiet : List ParserOption → Type 0
Quiet opts =
    (s : Bytes) (loc : Option Bytes)
    → (new_parser s loc opts).retry_ambiguous_date_with_swap ≡ false

nothing-Quiet : Quiet []
unfolding new_parser apply_options
nothing-Quiet s loc = refl

apply-append :
    (xs ys : List ParserOption) (p : Parser)
    → apply_options (xs ++ ys) p ≡ apply_options ys (apply_options xs p)
unfolding apply_options
apply-append [] ys p = refl
apply-append (x ∷ xs) ys p = apply-append xs ys (x p)

pub swapped-Quiet : (opts : List ParserOption) (p : Parser) → Quiet (swapped opts p)
unfolding new_parser apply_options prefer_month_first retry_ambiguous_date_with_swap
swapped-Quiet opts p s loc =
    ap (λ q. q.retry_ambiguous_date_with_swap)
      (apply-append opts
        (prefer_month_first (not p.prefer_month_first) ∷ retry_ambiguous_date_with_swap false ∷ [])
        _)

append-SetFlags : (xs ys : List ParserOption) → SetFlags xs → SetFlags ys → SetFlags (xs ++ ys)
append-SetFlags [] ys f g = g
append-SetFlags (x ∷ xs) ys f g = (f.0, append-SetFlags xs ys f.1 g)

pub swapped-SetFlags :
    (opts : List ParserOption) (p : Parser) → SetFlags opts → SetFlags (swapped opts p)
swapped-SetFlags opts p f =
    append-SetFlags opts _ f
      (prefer-OnlyFlags (not p.prefer_month_first), (retry-OnlyFlags false, tt))

-- A call that returns proper results.
abbrev pub Answers : Outcome Error Found → Type 0
Answers x = (f : Found) × (x ≡ ok f) × IsProper f

pub kept-SetFlags :
    (kept : Bool) (opts : List ParserOption) → SetFlags opts → SetFlags (if kept then opts else [])
kept-SetFlags true opts f = f
kept-SetFlags false opts f = tt

pub kept-Quiet :
    (kept : Bool) (opts : List ParserOption) → Quiet opts → Quiet (if kept then opts else [])
kept-Quiet true opts q = q
kept-Quiet false opts q = nothing-Quiet

returned-Answers :
    (read : Reader) (s : Bytes) (loc : Option Bytes) (opts : List ParserOption) (call : Call)
    (retries : Bool) (x : Outcome Error Reply)
    → retries ≡ false
    → ((text : Bytes) (kept : Bool)
        → weight text + 1 ≤ weight s
        → Answers (call text loc (if kept then opts else [])))
    → Replied s x
    → Answers (bind x (returned read call retries loc opts))
unfolding returned
returned-Answers read s loc opts call true x e more r = absurd (cc)
returned-Answers read s loc opts call false (ok (gave t f)) e more r = (f, refl, r.1)
returned-Answers read s loc opts call false (ok (calls local text kept)) e more r =
    let (f, returns, proper) = more text kept r.0 in rw returns (f, refl, proper)
returned-Answers read s loc opts call false (fail x) e more d = elim d [ ]
returned-Answers read s loc opts call false panic e more d = elim d [ ]
returned-Answers read s loc opts call false hung e more d = elim d [ ]

module _ (u : Tables) (read : Reader) where
  -- Without the retry, `parseTime` returns for every text: on fuel for its weight, it does not run
  -- out of fuel and does not panic, and where it returns no error it returns a parser.
  pub parse_time-Answers :
      (n : ℕ) (s : Bytes) (loc : Option Bytes) (opts : List ParserOption)
      → SetFlags opts
      → Quiet opts
      → weight s < n
      → weight s < two_63
      → Answers (parse_time u read n s loc opts)
  unfolding parse_time
  parse_time-Answers zero s loc opts f q h short = elim h [ ]
  parse_time-Answers (suc n) s loc opts f q h short =
      let p = new_parser s loc opts in
      returned-Answers read s loc opts (parse_time u read n) p.retry_ambiguous_date_with_swap
        (parse_once u s p) (q s loc)
        (λ text kept less.
          parse_time-Answers n text loc (if kept then opts else []) (kept-SetFlags kept opts f)
            (kept-Quiet kept opts q) (omega arith) (omega arith))
        (parse_once-Replied u s p (omega (arith, length-le s)) (new_parser-IsNew s loc opts f))
