-- ===== src/DateParse/Date/Fine.antt =====
-- What a turn of the date loop keeps, and how it moves the index.
pub mod Digits
pub mod Dashes
pub mod Slashes
pub mod Words
pub mod Months
use watchmaker.Prelude.{
  ℕ, ◌+◌, ◌≡◌, ◌≤◌, refl, ◌∙◌, [], ◌∷◌, Bool, true, false, ltb, ◌&&◌, ◌||◌, ◌==◌, arith,
  if◌then◌else◌, length, Option, some, none,
}
use watchmaker.Prelude.Int.{ℤ, pos, negsuc, ◌-ℤ◌}
use watchmaker.Go.Text.{Bytes, codes}
use watchmaker.DateParse.States.{
  date_start, date_alpha_ws_digit_yearmaybe, date_alpha_ws_month_suffix, DateState,
}
use watchmaker.DateParse.Fields.{Parser, set, set_month, set_day, set_year}
use watchmaker.DateParse.Steps.{IsProper, Step, Found, next, leave, gives, again, swap, crash}
use watchmaker.DateParse.Weight.{weight}
use watchmaker.DateParse.Loop.{raised}
use watchmaker.DateParse.Aligned.{Keeps, set-Keeps, Keeps-same, Keeps-trans}

-- The text, the length of the layout, the part below a second, and where the text is cut.
abbrev pub Same : Parser → Parser → Type 0
Same p q =
    (q.datestr ≡ p.datestr)
    × (length q.format ≡ length p.format)
    × (q.msi ≡ p.msi)
    × (q.mslen ≡ p.mslen)
    × (q.extra ≡ p.extra)

set-extra : (start : ℤ) (val : Bytes) (p : Parser) → (set start val p).extra ≡ p.extra
unfolding set
set-extra (negsuc n) val p = refl
set-extra (pos n) val p = ground arith

pub set-Same : (start : ℤ) (val : Bytes) (p : Parser) → Same p (set start val p)
set-Same start val p = (
  (set-Keeps start val p).text,
  (set-Keeps start val p).size,
  (set-Keeps start val p).start,
  (set-Keeps start val p).count,
  set-extra start val p,
)

pub set_month-Same : (p : Parser) → Same p (set_month p)
unfolding set_month
set_month-Same p = ground (arith, set-Same p.moi (codes "01") p, set-Same p.moi (codes "1") p)

pub set_day-Same : (p : Parser) → Same p (set_day p)
unfolding set_day
set_day-Same p = ground (arith, set-Same p.dayi (codes "02") p, set-Same p.dayi (codes "2") p)

pub set_year-Same : (p : Parser) → Same p (set_year p)
unfolding set_year
set_year-Same p = ground (arith, set-Same p.yeari (codes "06") p, set-Same p.yeari (codes "2006") p)

-- The two states that the layout's writers leave alone.
abbrev pub Stays : Parser → Parser → Type 0
Stays p q = (q.state_date ≡ p.state_date) × (q.state_time ≡ p.state_time)

pub set-Stays : (start : ℤ) (val : Bytes) (p : Parser) → Stays p (set start val p)
unfolding set
set-Stays (negsuc n) val p = (refl, refl)
set-Stays (pos n) val p = ground arith

pub set_month-Stays : (p : Parser) → Stays p (set_month p)
unfolding set_month
set_month-Stays p = ground (arith, set-Stays p.moi (codes "01") p, set-Stays p.moi (codes "1") p)

pub set_day-Stays : (p : Parser) → Stays p (set_day p)
unfolding set_day
set_day-Stays p = ground (arith, set-Stays p.dayi (codes "02") p, set-Stays p.dayi (codes "2") p)

pub set_year-Stays : (p : Parser) → Stays p (set_year p)
unfolding set_year
set_year-Stays p =
    ground (arith, set-Stays p.yeari (codes "06") p, set-Stays p.yeari (codes "2006") p)

-- A character is read twice at most once, at a suffix, which is not left again.
abbrev pub slack : DateState → ℕ
slack date_alpha_ws_month_suffix = 0
slack _ = 1

-- The characters that lie behind the index in a state.
abbrev pub floor : DateState → ℕ
floor date_start = 0
floor date_alpha_ws_digit_yearmaybe = 2
floor _ = 1

abbrev pub Moves : ℕ → Parser → ℤ → Parser → Type 0
Moves i p (pos k) q =
    (i + 1 + slack q.state_date ≤ k + slack p.state_date) × (floor q.state_date ≤ k)
Moves i p (negsuc k) q = ⊥

abbrev pub IsIndex : ℤ → Type 0
IsIndex (pos k) = Unit
IsIndex (negsuc k) = ⊥

-- A turn at the index i: there is no panic, and another call has less of a text.
abbrev pub Fine : Bytes → ℕ → Parser → Step → Type 0
Fine s i p (next j q) = Moves i p (raised j) q × Same p q
Fine s i p (leave j q) = IsIndex (raised j) × Same p q
Fine s i p (swap t j q) = ⊥
Fine s i p (gives f) = IsProper f
Fine s i p (again local text kept) = (weight text + 1 ≤ weight s) × (weight local ≤ weight s)
Fine s i p crash = ⊥
