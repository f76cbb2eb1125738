-- ===== src/DateParse/Date/Result.antt =====
-- What is returned for a date: a parser on which `parse` does not panic.
use watchmaker.Prelude.{ℕ, ◌≡◌, ◌∙◌, [], inl, inr, Option, none, some, arith, length, ap}
use watchmaker.Prelude.Int.{ℤ, pos}
use watchmaker.Go.Text.{Bytes}
use watchmaker.DateParse.States.{
  date_digit, date_digit_chinese_year, date_digit_chinese_year_ws, date_digit_ws_molong,
  date_alpha_ws_month, date_alpha_ws_month_more, date_alpha_ws_month_suffix, date_alpha_ws_more,
  date_weekday_comma, DateState,
}
use watchmaker.DateParse.Fields.{Parser, coalesce_year, coalesce_month, coalesce_day, coalesce_date}
use watchmaker.DateParse.Aligned.{IsAligned}
use watchmaker.DateParse.Usable.{Usable, UsableFound}
use watchmaker.DateParse.Date.Dashes.{year_of_length}
use watchmaker.DateParse.Date.End.{
  at_time, digits_end, year_offset_end, last_year, last_month, last_day, long_month_end,
  date_end_at, date_end,
}
use watchmaker.DateParse.Date.Fine.{set-Same, set_month-Same, set_day-Same, set_year-Same}
use watchmaker.DateParse.Date.Month.{
  WordsOf, Writes, set-Writes, set_month-Writes, set_day-Writes, set_year-Writes,
}

coalesce_year-Writes : (end : ℤ) (p : Parser) → Writes p (coalesce_year end p)
unfolding coalesce_year
coalesce_year-Writes end p = grind (arith, set_year-Writes)

coalesce_month-Writes : (end : ℤ) (p : Parser) → Writes p (coalesce_month end p)
unfolding coalesce_month
coalesce_month-Writes end p = grind (arith, set_month-Writes)

coalesce_day-Writes : (end : ℤ) (p : Parser) → Writes p (coalesce_day end p)
unfolding coalesce_day
coalesce_day-Writes end p = grind (arith, set_day-Writes)

pub Writes-trans : (p q r : Parser) → Writes p q → Writes q r → Writes p r
Writes-trans p q r h g = (g.0 ∙ h.0, g.1 ∙ h.1, g.2 ∙ h.2, g.3 ∙ h.3)

-- The name of the month, the text that is skipped and the state of the date are kept, and the
-- length of the layout.
pub coalesce_date-Writes : (end : ℤ) (p : Parser) → Writes p (coalesce_date end p)
unfolding coalesce_date
coalesce_date-Writes end p =
    let y = coalesce_year end p in
    let m = coalesce_month end y in
    Writes-trans p y (coalesce_day end m) (coalesce_year-Writes end p) (
      Writes-trans y m (coalesce_day end m) (coalesce_month-Writes end y)
        (coalesce_day-Writes end m))

-- The words of a state fit a parser whose layout is as long as its text.
WordsOf-Usable : (at : DateState) (i : ℕ) (p : Parser) → WordsOf at i p → IsAligned p → Usable p
WordsOf-Usable date_alpha_ws_month i p h g = inl (h.0, h.1)
WordsOf-Usable date_alpha_ws_more i p h g = inl (h.0, h.1)
WordsOf-Usable date_alpha_ws_month_more i p h g = inl (h.0, h.1)
WordsOf-Usable date_alpha_ws_month_suffix i p h g = inl (h.0, h.1)
WordsOf-Usable date_weekday_comma i p h g = inr (h, g)
WordsOf-Usable _ i p h g = inr (h.0, g)

-- A layout of its own, for a date without words.
wordless-Usable :
    (p : Parser) (format : Bytes)
    → p.full_month ≡ []
    → p.skip ≡ pos 0
    → Usable (record p { format = format })
wordless-Usable p format h g = inl (g, omega (arith, ap length h))

at_time-UsableFound :
    (s : Bytes) (o : Option ℤ) (p : Parser)
    → p.full_month ≡ []
    → p.skip ≡ pos 0
    → UsableFound (at_time s o p)
unfolding at_time
at_time-UsableFound s none p h g = tt
at_time-UsableFound s (some t) p h g = inl (g, omega (arith, ap length h))

digits_end-UsableFound :
    (s : Bytes) (p : Parser) → p.full_month ≡ [] → p.skip ≡ pos 0 → UsableFound (digits_end s p)
unfolding digits_end
digits_end-UsableFound s p h g = grind (arith, at_time-UsableFound, wordless-Usable)

module _ (s : Bytes) (i : ℤ) (n : ℕ) (p : Parser) where
  date_end_at-UsableFound :
      (at : DateState) → WordsOf at n p → IsAligned p → UsableFound (date_end_at at s i p)
  unfolding date_end_at long_month_end year_offset_end last_year last_month last_day year_of_length
  date_end_at-UsableFound date_digit h g = digits_end-UsableFound s p h.0 h.1
  date_end_at-UsableFound date_digit_ws_molong h g = ground (arith, h.0, h.1)
  date_end_at-UsableFound date_digit_chinese_year h g = inl (h.1, omega (arith, ap length h.0))
  date_end_at-UsableFound date_digit_chinese_year_ws h g = inl (h.1, omega (arith, ap length h.0))
  date_end_at-UsableFound date_weekday_comma h g = inr (h, g)
  date_end_at-UsableFound _ h g = grind (
    arith, set-Writes, set_year-Writes, set_month-Writes, set_day-Writes, set-Same, set_year-Same,
    set_month-Same, set_day-Same,
  )

-- A date whose layout is as long as the text gives an error or a usable parser.
pub date_end-UsableFound :
    (s : Bytes) (i : ℤ) (n : ℕ) (p : Parser)
    → WordsOf p.state_date n p
    → IsAligned p
    → UsableFound (date_end s i p)
unfolding date_end
date_end-UsableFound s i n p h g = date_end_at-UsableFound s i n p p.state_date h g
