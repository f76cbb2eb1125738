-- ===== src/DateParse/Date/Spelled.antt =====
-- The words of a date behind the date loop.
use watchmaker.Prelude.{
  ℕ, zero, suc, ◌+◌, ◌≡◌, ◌≤◌, ◌∙◌, refl, Bool-cases, inl, inr, ltb, arith, tests, length, drop,
}
use watchmaker.Prelude.Int.{ℤ, pos, negsuc}
use watchmaker.Prelude.Outcome.{Outcome, ok}
use watchmaker.Go.Text.{Bytes}
use watchmaker.Errors.{Error}
use watchmaker.DateParse.States.{
  date_start, date_digit, date_digit_st, date_year_dash, date_year_dash_alpha_dash,
  date_year_dash_dash, date_year_dash_dash_offset, date_digit_dash, date_digit_dash_alpha,
  date_digit_dash_alpha_dash, date_digit_dot, date_digit_slash, date_digit_year_slash,
  date_digit_slash_alpha, date_digit_colon, date_digit_chinese_year, date_digit_ws,
  date_digit_ws_mo_year, date_alpha, date_alpha_ws, date_alpha_ws_digit, date_alpha_ws_digit_more,
  date_alpha_ws_digit_more_ws, date_alpha_ws_month, date_alpha_ws_digit_yearmaybe,
  date_alpha_ws_month_more, date_alpha_ws_month_suffix, date_alpha_ws_more,
  date_alpha_period_ws_digit, date_weekday_comma, date_weekday_abbrev_comma, DateState,
}
use watchmaker.DateParse.Fields.{Parser, to_nat}
use watchmaker.DateParse.Runes.{Tables, decode_rune}
use watchmaker.DateParse.Steps.{Step, next, leave, swap, gives, again, crash}
use watchmaker.DateParse.Loop.{gave, Stop, behind, replies, continued, loop}
use watchmaker.DateParse.Date.Turn.{date_step, date_turn}
use watchmaker.DateParse.Date.Fine.{Fine, floor, slack}
use watchmaker.DateParse.Date.Ends.{last_byte, date_turn-Fine_late}
use watchmaker.DateParse.Usable.{UsableFound}
use watchmaker.DateParse.Date.Month.{Spelled, WordsOf}
use watchmaker.DateParse.Date.Month.Digits.{
  start-Spelled, digit-Spelled, digit_st-Spelled, chinese-Spelled,
}
use watchmaker.DateParse.Date.Month.Dashes.{
  year_dash-Spelled, year_dash_dash-Spelled, year_offset-Spelled, year_alpha-Spelled,
  digit_dash-Spelled, digit_alpha-Spelled, digit_alpha_dash-Spelled,
}
use watchmaker.DateParse.Date.Month.Slashes.{
  year_slash-Spelled, slash_alpha-Spelled, slash-Spelled, colon-Spelled, dot-Spelled,
  digit_ws-Spelled, ws_mo_year-Spelled,
}
use watchmaker.DateParse.Date.Month.Words.{
  alpha_ws-Spelled, ws_digit-Spelled, yearmaybe-Spelled, digit_more-Spelled, digit_more_ws-Spelled,
  alpha-Spelled, LowersMonths,
}
use watchmaker.DateParse.Date.Month.Months.{
  ws_month-Spelled, month_more-Spelled, suffix-Spelled, ws_more-Spelled, period_digit-Spelled,
  weekday-Spelled, weekday_abbrev-Spelled,
}

-- The index only grows.
WordsOf-later : (at : DateState) (i j : ℕ) (p : Parser) → i ≤ j → WordsOf at i p → WordsOf at j p
WordsOf-later date_alpha_ws_month i j p h g = (g.0, g.1, omega arith)
WordsOf-later date_alpha_ws_more i j p h g = (g.0, g.1, omega arith)
WordsOf-later date_alpha_ws_month_more i j p h g = (g.0, g.1, omega arith)
WordsOf-later date_alpha_ws_month_suffix i j p h g = (g.0, g.1, omega arith)
WordsOf-later date_weekday_comma i j p h g = g
WordsOf-later _ i j p h g = g

module _ (u : Tables) (w : LowersMonths u) (s : Bytes) (i r : ℕ) (p : Parser)
    (same : length p.format ≡ length s) (words : WordsOf p.state_date i p) where
  date_step-Spelled : (at : DateState) → p.state_date ≡ at → Spelled i (date_step at u s i r p)
  unfolding date_step
  date_step-Spelled date_start h = start-Spelled u s i r p h words
  date_step-Spelled date_digit h = digit-Spelled u s i r p h words
  date_step-Spelled date_digit_st h = digit_st-Spelled u s i r p h words
  date_step-Spelled date_year_dash h = year_dash-Spelled u s i r p h words
  date_step-Spelled date_year_dash_dash h = year_dash_dash-Spelled u s i r p h words
  date_step-Spelled date_year_dash_dash_offset h = year_offset-Spelled u s i r p h words
  date_step-Spelled date_year_dash_alpha_dash h = year_alpha-Spelled u s i r p h words
  date_step-Spelled date_digit_dash h = digit_dash-Spelled u s i r p h words
  date_step-Spelled date_digit_dash_alpha h = digit_alpha-Spelled u s i r p h words
  date_step-Spelled date_digit_dash_alpha_dash h = digit_alpha_dash-Spelled u s i r p h words
  date_step-Spelled date_digit_year_slash h = year_slash-Spelled u s i r p h words
  date_step-Spelled date_digit_slash_alpha h = slash_alpha-Spelled u s i r p h words
  date_step-Spelled date_digit_slash h = slash-Spelled u s i r p h words
  date_step-Spelled date_digit_colon h = colon-Spelled u s i r p h words
  date_step-Spelled date_digit_ws h = digit_ws-Spelled u s i r p h words
  date_step-Spelled date_digit_ws_mo_year h = ws_mo_year-Spelled u s i r p h words
  date_step-Spelled date_digit_chinese_year h = chinese-Spelled u s i r p h words
  date_step-Spelled date_digit_dot h = dot-Spelled u s i r p h words
  date_step-Spelled date_alpha h = alpha-Spelled u s i r p h words w same
  date_step-Spelled date_alpha_ws h = alpha_ws-Spelled u s i r p h words
  date_step-Spelled date_alpha_ws_digit h = ws_digit-Spelled u s i r p h words
  date_step-Spelled date_alpha_ws_digit_yearmaybe h = yearmaybe-Spelled u s i r p h words
  date_step-Spelled date_alpha_ws_digit_more h = digit_more-Spelled u s i r p h words
  date_step-Spelled date_alpha_ws_digit_more_ws h = digit_more_ws-Spelled u s i r p h words
  date_step-Spelled date_alpha_ws_month h = ws_month-Spelled u s i r p h words
  date_step-Spelled date_alpha_ws_month_more h = month_more-Spelled u s i r p h words
  date_step-Spelled date_alpha_ws_month_suffix h = suffix-Spelled u s i r p h words
  date_step-Spelled date_alpha_ws_more h = ws_more-Spelled u s i r p h words
  date_step-Spelled date_alpha_period_ws_digit h = period_digit-Spelled u s i r p h words
  date_step-Spelled date_weekday_comma h = weekday-Spelled u s i r p h words
  date_step-Spelled date_weekday_abbrev_comma h = weekday_abbrev-Spelled u s i r p h words
  date_step-Spelled _ h = words

-- Behind the loop.
abbrev pub SpelledStop : Outcome Error Stop → Type 0
SpelledStop (ok (behind t j q)) = WordsOf q.state_date (to_nat j) q
SpelledStop (ok (replies (gave t f))) = UsableFound f
SpelledStop _ = Unit

slack-le : (at : DateState) → slack at ≤ 1
slack-le _ = ground arith

-- What one turn leads to, with a loop behind it.
module _ (s : Bytes) (more : Bytes → ℤ → Parser → Outcome Error Stop)
    (ends : (i : ℕ) (p : Parser)
      → floor p.state_date ≤ i
      → p.datestr ≡ s
      → length p.format ≡ length s
      → WordsOf p.state_date i p
      → SpelledStop (more s (pos i) p)) where
  turn-SpelledStop :
      (i : ℕ) (p : Parser) (x : Step)
      → p.datestr ≡ s
      → length p.format ≡ length s
      → Fine s i p x
      → Spelled i x
      → SpelledStop (continued more s x)
  turn-SpelledStop i p (next (pos k) q) text size f g =
      ends (k + 1) q f.0.1 (f.1.0 ∙ text) (f.1.1 ∙ size)
        (WordsOf-later q.state_date i (k + 1) q (omega (arith, slack-le p.state_date)) g)
  turn-SpelledStop i p (next (negsuc zero) q) text size f g =
      ends 0 q f.0.1 (f.1.0 ∙ text) (f.1.1 ∙ size)
        (WordsOf-later q.state_date i 0 q (omega (arith, slack-le p.state_date)) g)
  turn-SpelledStop i p (next (negsuc (suc k)) q) text size f g = elim f.0 [ ]
  turn-SpelledStop i p (leave j q) text size f g = g
  turn-SpelledStop i p (swap t j q) text size f g = elim f [ ]
  turn-SpelledStop i p (gives found) text size f g = g
  turn-SpelledStop i p (again local t kept) text size f g = tt
  turn-SpelledStop i p crash text size f g = tt

pub date_loop-SpelledStop :
    (u : Tables) (n : ℕ) (s : Bytes) (i : ℕ) (p : Parser)
    → LowersMonths u
    → floor p.state_date ≤ i
    → p.datestr ≡ s
    → length p.format ≡ length s
    → WordsOf p.state_date i p
    → SpelledStop (loop (date_turn u) n s (pos i) p)
unfolding loop date_turn
date_loop-SpelledStop u zero s i p w low text size words = tt
date_loop-SpelledStop u (suc n) s i p w low text size words = elim (Bool-cases (ltb i (length s))) [
  | inr e ↦ rw (e, loop) words
  | inl e ↦
      let j = last_byte s i in
      rw (e, loop)
        (turn-SpelledStop s (loop (date_turn u) n) (λ k q. date_loop-SpelledStop u n s k q w) j p
          (date_turn u s i p) text size (date_turn-Fine_late u s i p low (omega tests) text)
          (date_step-Spelled u w s j (decode_rune (drop i s)).0 p size
            (WordsOf-later p.state_date i j p (omega arith) words) p.state_date refl))
]
