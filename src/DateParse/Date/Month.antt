-- ===== src/DateParse/Date/Month.antt =====
-- The full name of a month and the text that is skipped: only a date that starts with a word has
-- either, and not both.
pub mod Digits
pub mod Dashes
pub mod Slashes
pub mod Words
pub mod Months
use watchmaker.Prelude.{ℕ, ◌≡◌, ◌≤◌, refl, [], arith, length}
use watchmaker.Prelude.Int.{ℤ, pos, negsuc}
use watchmaker.Go.Text.{Bytes, codes}
use watchmaker.DateParse.States.{
  date_alpha_ws_month, date_alpha_ws_month_more, date_alpha_ws_month_suffix, date_alpha_ws_more,
  date_weekday_comma, DateState,
}
use watchmaker.DateParse.Fields.{Parser, to_nat, set, set_month, set_day, set_year}
use watchmaker.DateParse.Steps.{Step, next, leave, gives}
use watchmaker.DateParse.Usable.{UsableFound}
use watchmaker.DateParse.Date.Fine.{set-Same, set-Stays}

-- What the writers of the layout keep of them.
abbrev pub Writes : Parser → Parser → Type 0
Writes p q =
    (q.full_month ≡ p.full_month)
    × (q.skip ≡ p.skip)
    × (length q.format ≡ length p.format)
    × (q.state_date ≡ p.state_date)

pub set-words :
    (start : ℤ) (val : Bytes) (p : Parser)
    → ((set start val p).full_month ≡ p.full_month) × ((set start val p).skip ≡ p.skip)
unfolding set
set-words (negsuc n) val p = (refl, refl)
set-words (pos n) val p = ground arith

pub set-Writes : (start : ℤ) (val : Bytes) (p : Parser) → Writes p (set start val p)
set-Writes start val p =
    let words = set-words start val p in
    (words.0, words.1, (set-Same start val p).1, (set-Stays start val p).0)

pub set_month-Writes : (p : Parser) → Writes p (set_month p)
unfolding set_month
set_month-Writes p = ground (arith, set-Writes p.moi (codes "01") p, set-Writes p.moi (codes "1") p)

pub set_day-Writes : (p : Parser) → Writes p (set_day p)
unfolding set_day
set_day-Writes p = ground (arith, set-Writes p.dayi (codes "02") p, set-Writes p.dayi (codes "2") p)

pub set_year-Writes : (p : Parser) → Writes p (set_year p)
unfolding set_year
set_year-Writes p =
    ground (arith, set-Writes p.yeari (codes "06") p, set-Writes p.yeari (codes "2006") p)

-- A month in full is no longer than the layout, nor than the text in front of the index, and nothing
-- is skipped then.
abbrev pub InFull : ℕ → Parser → Type 0
InFull i p = (p.skip ≡ pos 0) × (length p.full_month ≤ length p.format) × (length p.full_month ≤ i)

abbrev pub WordsOf : DateState → ℕ → Parser → Type 0
WordsOf date_alpha_ws_month i p = InFull i p
WordsOf date_alpha_ws_more i p = InFull i p
WordsOf date_alpha_ws_month_more i p = InFull i p
WordsOf date_alpha_ws_month_suffix i p = InFull i p
WordsOf date_weekday_comma i p = p.full_month ≡ []
WordsOf _ i p = (p.full_month ≡ []) × (p.skip ≡ pos 0)

-- A turn at the index i.
abbrev pub Spelled : ℕ → Step → Type 0
Spelled i (next j q) = WordsOf q.state_date i q
Spelled i (leave j q) = WordsOf q.state_date (to_nat j) q
Spelled i (gives f) = UsableFound f
Spelled i _ = Unit
