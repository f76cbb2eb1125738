-- ===== src/DateParse/Whole.antt =====
-- date_parse.go: `parseTime` and the functions that the package exports. `read` is `time.Parse` and
-- `time.ParseInLocation`; fuel bounds the calls of `parseTime` in itself.
use watchmaker.Prelude.{
  ℕ, zero, suc, ◌+◌, List, [], ◌∷◌, Bool, false, not, ◌==◌, if◌then◌else◌, length, Option, some,
  none, drop, ◌++◌,
}
use watchmaker.Prelude.Int.{ℤ, pos, negsuc, ltb_ℤ}
use watchmaker.Prelude.Outcome.{Outcome, ok, fail, panic, hung}
use watchmaker.Go.Text.{Bytes, codes, contains}
use watchmaker.Errors.{Error, sys}
use watchmaker.DateParse.States.{is_time_start}
use watchmaker.DateParse.Fields.{
  Parser, ParserOption, prefer_month_first, retry_ambiguous_date_with_swap, new_parser,
  coalesce_date,
}
use watchmaker.DateParse.Time.{Reader, parse, bind, with_full_month, without_skip, coalesce_time}
use watchmaker.DateParse.Runes.{Tables}
use watchmaker.DateParse.Steps.{Found}
use watchmaker.DateParse.Loop.{Stop, behind, replies, Reply, gave, calls, loop, raised}
use watchmaker.DateParse.Date.Turn.{date_turn}
use watchmaker.DateParse.Date.End.{date_end}
use watchmaker.DateParse.Clock.Turn.{time_turn}
use watchmaker.DateParse.Clock.End.{time_end}

-- The spaces in front of the time.
unfoldable pub spaces : Bytes → ℕ
spaces [] = 0
spaces (c ∷ s) = let more = spaces s in if c == b' ' then suc more else 0

-- Behind the two loops: the time that is read last, and the shape of the date.
abbrev pub reply : Stop → Outcome Error Reply
reply (behind s i p) = bind (coalesce_time i p) λ q. ok (gave s (date_end s i q))
reply (replies r) = ok r

abbrev pub ends : Stop → Outcome Error Stop
ends (behind s i p) = time_end s i p
ends (replies r) = ok (replies r)

-- The time loop, from the index of the first character that is not a space.
unfoldable pub time_part : Tables → Bytes → ℤ → Parser → Outcome Error Reply
unfolding spaces
time_part u s (negsuc k) p = panic
time_part u s (pos i) p =
    let stop = loop (time_turn u) (length s + 1) s (pos (i + spaces (drop i s))) p in
    bind (bind stop ends) reply

unfoldable pub behind_date : Tables → Stop → Outcome Error Reply
unfolding time_part
behind_date u (replies r) = ok r
behind_date u (behind s i p) =
    let q = coalesce_date i p in
    if is_time_start q.state_time
    then time_part u s (if ltb_ℤ i (pos (length q.datestr)) then raised i else i) q
    else ok (gave s (date_end s i q))

-- `parseTime` up to its own calls, and up to its deferred function.
unfoldable pub parse_once : Tables → Bytes → Parser → Outcome Error Reply
unfolding behind_date
parse_once u s p = bind (loop (date_turn u) (length s + 2) s (pos 0) p) (behind_date u)

-- `parse` up to its use of the layout: it changes the parser.
unfoldable pub prepared : Parser → Outcome Error Parser
prepared p = elim p.t [ some t ↦ ok p | none ↦ bind (with_full_month p) without_skip ]

-- The text of an error of `parse` speaks of a month out of range.
unfoldable pub is_month_error : Error → Bool
is_month_error (sys text) = contains (codes "month out of range") text
is_month_error _ = false

abbrev pub Call : Type 0
Call = Bytes → Option Bytes → List ParserOption → Outcome Error Found

-- The options of the second attempt.
abbrev pub swapped : List ParserOption → Parser → List ParserOption
swapped opts p =
    opts
    ++ prefer_month_first (not p.prefer_month_first) ∷ retry_ambiguous_date_with_swap false ∷ []

-- The second attempt gives the parser; the error of the first one stays, since `err` is another
-- variable there.
unfoldable pub retried :
    Call → Bytes → List ParserOption → Outcome Error ℤ → Found → Parser → Outcome Error Found
unfolding is_month_error
retried call s opts (ok t) f p = ok (record f { parser = some p })
retried call s opts panic f p = panic
retried call s opts hung f p = hung
retried call s opts (fail e) f p =
    if is_month_error e
    then bind (call s (some (codes "Local")) (swapped opts p))
        (λ g. ok (record f { parser = g.parser }))
    else ok (record f { parser = some p })

-- The deferred function.
unfoldable pub deferred : Reader → Call → Bytes → List ParserOption → Found → Outcome Error Found
unfolding prepared retried
deferred read call s opts f = elim f.parser [
  | none ↦ ok f
  | some p ↦
      if p.ambiguous_md
      then bind (prepared p) (λ q. retried call s opts (parse read p) f q)
      else ok f
]

-- A `return`, and the deferred function if there is one.
unfoldable pub returned :
    Reader → Call → Bool → Option Bytes → List ParserOption → Reply → Outcome Error Found
unfolding deferred
returned read call retries loc opts (gave s f) =
    if retries then deferred read call s opts f else ok f
returned read call retries loc opts (calls s text kept) =
    bind (call text loc (if kept then opts else []))
      (λ f. if retries then deferred read call s opts f else ok f)

unfoldable pub parse_time : Tables → Reader → ℕ → Call
unfolding parse_once returned
parse_time u read zero s loc opts = hung
parse_time u read (suc n) s loc opts =
    let p = new_parser s loc opts in
    bind (parse_once u s p)
      (returned read (parse_time u read n) p.retry_ambiguous_date_with_swap loc opts)
