-- ===== src/DateParse/Refused.antt =====
-- Texts that start with neither a digit nor a letter.
use watchmaker.Prelude.{suc, ◌+◌, ◌≡◌, ◌∙◌, refl, ap, [], ◌∷◌, false, none, arith, length}
use watchmaker.Prelude.Int.{pos}
use watchmaker.Prelude.Outcome.{ok, fail}
use watchmaker.Go.Text.{Bytes}
use watchmaker.Errors.{unknown_format}
use watchmaker.DateParse.States.{date_start}
use watchmaker.DateParse.Fields.{Parser, new_parser, apply_options, coalesce_date}
use watchmaker.DateParse.Time.{Reader, bind, parse}
use watchmaker.DateParse.Runes.{Tables, decode_rune, is_digit, is_letter}
use watchmaker.DateParse.Steps.{gives, refuse}
use watchmaker.DateParse.Loop.{behind, gave, loop}
use watchmaker.DateParse.Date.Digits.{start_step}
use watchmaker.DateParse.Date.Turn.{date_step, date_turn}
use watchmaker.DateParse.Date.End.{date_end, date_end_at}
use watchmaker.DateParse.Whole.{behind_date, parse_once}
use watchmaker.DateParse.Exported.{then_parse, parse_date_any}
use watchmaker.DateParse.Runs.{loop-gives}
use watchmaker.DateParse.Given.{parse_time-fuel}

-- The first character is neither; an empty text has none.
abbrev pub IsRefused : Tables → Bytes → Type 0
IsRefused u [] = Unit
IsRefused u (c ∷ s) =
    (is_digit u (decode_rune (c ∷ s)).0 ≡ false) × (is_letter u (decode_rune (c ∷ s)).0 ≡ false)

refused_turn :
    (u : Tables) (s : Bytes) (p : Parser)
    → p.state_date ≡ date_start
    → is_digit u (decode_rune s).0 ≡ false
    → is_letter u (decode_rune s).0 ≡ false
    → date_turn u s 0 p ≡ gives (refuse (unknown_format s))
unfolding date_turn date_step start_step
refused_turn u s p h d l = rw (h, d, l, date_turn, date_step, start_step) refl

nothing_read :
    (u : Tables) (p : Parser) → loop (date_turn u) 2 [] (pos 0) p ≡ ok (behind [] (pos 0) p)
unfolding loop
nothing_read u p = refl

refused_once :
    (u : Tables) (s : Bytes)
    → IsRefused u s
    → parse_once u s (new_parser s none []) ≡ ok (gave s (refuse (unknown_format s)))
unfolding parse_once behind_date new_parser apply_options coalesce_date date_end date_end_at
refused_once u [] h = ap (λ x. bind x (behind_date u)) (nothing_read u (new_parser [] none []))
refused_once u (c ∷ s) h =
    let p = new_parser (c ∷ s) none [] in
    let f = refuse (unknown_format (c ∷ s)) in
    let turns : length (c ∷ s) + 2 ≡ suc (length s + 2) = omega arith in
    ap (λ x. bind x (behind_date u))
      (ap (λ n. loop (date_turn u) n (c ∷ s) (pos 0) p) turns
        ∙ loop-gives (date_turn u) (length s + 2) (c ∷ s) 0 p f (omega arith)
            (refused_turn u (c ∷ s) p refl h.0 h.1))

-- A text that starts with neither a digit nor a letter is refused with the error that names it, and
-- so is the empty text.
pub parse_date_any-refused :
    (u : Tables) (read : Reader) (s : Bytes)
    → IsRefused u s
    → parse_date_any u read s [] ≡ fail (unknown_format s)
unfolding parse_date_any then_parse new_parser apply_options
parse_date_any-refused u read s h =
    ap (λ x. bind x (then_parse (parse read)))
      (parse_time-fuel u read s s none [] (refuse (unknown_format s)) (refused_once u s h) refl)
