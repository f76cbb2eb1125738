-- ===== src/DateParse/Date/Ends.antt =====
-- A whole turn of the date loop, and the loop: it ends, and nothing in it panics.
use watchmaker.Prelude.{
  ℕ, zero, suc, ◌+◌, ◌-◌, ◌≡◌, ◌≤◌, ◌<◌, refl, ◌∙◌, tests, Bool-cases, inl, inr, ltb, arith, length,
  drop, length-drop,
}
use watchmaker.Prelude.Int.{ℤ, pos, negsuc}
use watchmaker.Prelude.Outcome.{Outcome, ok, fail, panic, hung}
use watchmaker.Go.Text.{Bytes}
use watchmaker.Errors.{Error}
use watchmaker.DateParse.States.{
  date_start, date_digit, date_digit_st, date_year_dash, date_year_dash_alpha_dash,
  date_year_dash_dash, date_year_dash_dash_offset, date_digit_dash, date_digit_dash_alpha,
  date_digit_dash_alpha_dash, date_digit_dot, date_digit_slash, date_digit_year_slash,
  date_digit_slash_alpha, date_digit_colon, date_digit_chinese_year, date_digit_ws,
  date_digit_ws_mo_year, date_alpha, date_alpha_ws, date_alpha_ws_digit, date_alpha_ws_digit_more,
  date_alpha_ws_digit_more_ws, date_alpha_ws_month, date_alpha_ws_digit_yearmaybe,
  date_alpha_ws_month_more, date_alpha_ws_month_suffix, date_alpha_ws_more,
  date_alpha_period_ws_digit, date_weekday_comma, date_weekday_abbrev_comma, DateState,
}
use watchmaker.DateParse.Fields.{Parser}
use watchmaker.DateParse.Runes.{Tables, decode_rune}
use watchmaker.DateParse.Width.{decode-width}
use watchmaker.DateParse.Weight.{weight}
use watchmaker.DateParse.Steps.{IsProper, Step, next, leave, swap, gives, again, crash}
use watchmaker.DateParse.Loop.{gave, calls, Stop, behind, replies, raised, continued, loop}
use watchmaker.DateParse.Date.Turn.{date_step, date_turn}
use watchmaker.DateParse.Date.Fine.{Fine, Same, IsIndex, floor, slack}
use watchmaker.DateParse.Date.Fine.Digits.{start-Fine, digit-Fine, digit_st-Fine, chinese-Fine}
use watchmaker.DateParse.Date.Fine.Dashes.{
  year_dash-Fine, year_dash_dash-Fine, year_offset-Fine, year_alpha-Fine, digit_dash-Fine,
  digit_alpha-Fine, digit_alpha_dash-Fine,
}
use watchmaker.DateParse.Date.Fine.Slashes.{
  year_slash-Fine, slash_alpha-Fine, slash-Fine, colon-Fine, dot-Fine, digit_ws-Fine,
  ws_mo_year-Fine,
}
use watchmaker.DateParse.Date.Fine.Words.{
  alpha-Fine, alpha_ws-Fine, ws_digit-Fine, yearmaybe-Fine, digit_more-Fine, digit_more_ws-Fine,
}
use watchmaker.DateParse.Date.Fine.Months.{
  ws_month-Fine, month_more-Fine, suffix-Fine, ws_more-Fine, period_digit-Fine, weekday-Fine,
  weekday_abbrev-Fine,
}

module _ (u : Tables) (s : Bytes) (i r : ℕ) (p : Parser) where
  date_step-Fine :
      (at : DateState)
      → p.state_date ≡ at
      → floor at ≤ i
      → i < length s
      → p.datestr ≡ s
      → Fine s i p (date_step at u s i r p)
  unfolding date_step
  date_step-Fine date_start h g l same = start-Fine u s i r p h (omega arith)
  date_step-Fine date_digit h g l same = digit-Fine u s i r p h g
  date_step-Fine date_digit_st h g l same = digit_st-Fine u s i r p h g
  date_step-Fine date_year_dash h g l same = year_dash-Fine u s i r p h g
  date_step-Fine date_year_dash_dash h g l same = year_dash_dash-Fine u s i r p h g
  date_step-Fine date_year_dash_dash_offset h g l same = year_offset-Fine u s i r p h g
  date_step-Fine date_year_dash_alpha_dash h g l same = year_alpha-Fine u s i r p h g
  date_step-Fine date_digit_dash h g l same = digit_dash-Fine u s i r p h g
  date_step-Fine date_digit_dash_alpha h g l same = digit_alpha-Fine u s i r p h g
  date_step-Fine date_digit_dash_alpha_dash h g l same = digit_alpha_dash-Fine u s i r p h g
  date_step-Fine date_digit_year_slash h g l same = year_slash-Fine u s i r p h g
  date_step-Fine date_digit_slash_alpha h g l same = slash_alpha-Fine u s i r p h g
  date_step-Fine date_digit_slash h g l same = slash-Fine u s i r p h g
  date_step-Fine date_digit_colon h g l same = colon-Fine u s i r p h g
  date_step-Fine date_digit_ws h g l same = digit_ws-Fine u s i r p h g
  date_step-Fine date_digit_ws_mo_year h g l same = ws_mo_year-Fine u s i r p h g
  date_step-Fine date_digit_chinese_year h g l same = chinese-Fine u s i r p h g
  date_step-Fine date_digit_dot h g l same = dot-Fine u s i r p h g
  date_step-Fine date_alpha h g l same = alpha-Fine u s i r p h (g, l)
  date_step-Fine date_alpha_ws h g l same = alpha_ws-Fine u s i r p h g
  date_step-Fine date_alpha_ws_digit h g l same = ws_digit-Fine u s i r p h g
  date_step-Fine date_alpha_ws_digit_yearmaybe h g l same = yearmaybe-Fine u s i r p h g
  date_step-Fine date_alpha_ws_digit_more h g l same = digit_more-Fine u s i r p h g
  date_step-Fine date_alpha_ws_digit_more_ws h g l same = digit_more_ws-Fine u s i r p h g
  date_step-Fine date_alpha_ws_month h g l same = ws_month-Fine u s i r p h g
  date_step-Fine date_alpha_ws_month_more h g l same = month_more-Fine u s i r p h g
  date_step-Fine date_alpha_ws_month_suffix h g l same = suffix-Fine u s i r p h (g, same)
  date_step-Fine date_alpha_ws_more h g l same = ws_more-Fine u s i r p h g
  date_step-Fine date_alpha_period_ws_digit h g l same = period_digit-Fine u s i r p h g
  date_step-Fine date_weekday_comma h g l same = weekday-Fine u s i r p h g
  date_step-Fine date_weekday_abbrev_comma h g l same = weekday_abbrev-Fine u s i r p h g
  date_step-Fine _ h g l same = ground arith

Fine-earlier : (s : Bytes) (i j : ℕ) (p : Parser) (x : Step) → i ≤ j → Fine s j p x → Fine s i p x
Fine-earlier s i j p (next (pos n) q) h f = ground arith
Fine-earlier s i j p (next (negsuc zero) q) h f = ground arith
Fine-earlier s i j p (next (negsuc (suc n)) q) h f = elim f.0 [ ]
Fine-earlier s i j p (leave k q) h f = f
Fine-earlier s i j p (swap t k q) h f = f
Fine-earlier s i j p (gives found) h f = f
Fine-earlier s i j p (again local text kept) h f = f
Fine-earlier s i j p crash h f = f

-- The index of the last byte of the character at i.
abbrev pub last_byte : Bytes → ℕ → ℕ
last_byte s i = i + ((decode_rune (drop i s)).1 - 1)

pub date_turn-Fine_late :
    (u : Tables) (s : Bytes) (i : ℕ) (p : Parser)
    → floor p.state_date ≤ i
    → i < length s
    → p.datestr ≡ s
    → Fine s (last_byte s i) p (date_turn u s i p)
unfolding date_turn
date_turn-Fine_late u s i p g l same =
    let n = decode-width (drop i s) (omega (arith, length-drop i s)) in
    date_step-Fine u s (last_byte s i) (decode_rune (drop i s)).0 p p.state_date refl (omega arith)
      (omega (arith, length-drop i s)) same

pub date_turn-Fine :
    (u : Tables) (s : Bytes) (i : ℕ) (p : Parser)
    → floor p.state_date ≤ i
    → i < length s
    → p.datestr ≡ s
    → Fine s i p (date_turn u s i p)
date_turn-Fine u s i p g l same =
    Fine-earlier s i (last_byte s i) p (date_turn u s i p) (omega arith)
      (date_turn-Fine_late u s i p g l same)

-- How the loop may end.
abbrev pub Ended : Bytes → Parser → Outcome Error Stop → Type 0
Ended s p (ok (behind t j q)) = (t ≡ s) × IsIndex (raised j) × Same p q
Ended s p (ok (replies (gave t f))) = (t ≡ s) × IsProper f
Ended s p (ok (replies (calls local text kept))) =
    (weight text + 1 ≤ weight s) × (weight local ≤ weight s)
Ended s p (fail e) = ⊥
Ended s p panic = ⊥
Ended s p hung = ⊥

Ended-earlier :
    (s : Bytes) (p q : Parser) (x : Outcome Error Stop) → Same p q → Ended s q x → Ended s p x
Ended-earlier s p q (ok (behind t j r)) h e = ground arith
Ended-earlier s p q (ok (replies (gave t f))) h e = e
Ended-earlier s p q (ok (replies (calls local text kept))) h e = e
Ended-earlier s p q (fail e) h d = d
Ended-earlier s p q panic h e = e
Ended-earlier s p q hung h e = e

-- What one turn leads to, with a loop behind it.
module _ (s : Bytes) (more : Bytes → ℤ → Parser → Outcome Error Stop) (n : ℕ)
    (ends : (i : ℕ) (p : Parser)
      → 1 ≤ n
      → length s + slack p.state_date + 1 ≤ n + i
      → floor p.state_date ≤ i
      → p.datestr ≡ s
      → Ended s p (more s (pos i) p)) where
  turn-Ended :
      (i : ℕ) (p : Parser) (x : Step)
      → i < length s
      → length s + slack p.state_date ≤ n + i
      → p.datestr ≡ s
      → Fine s i p x
      → Ended s p (continued more s x)
  turn-Ended i p (next (pos k) q) h g same f =
      Ended-earlier s p q (more s (pos (k + 1)) q) f.1
        (ends (k + 1) q (omega arith) (omega arith) f.0.1 (f.1.0 ∙ same))
  turn-Ended i p (next (negsuc zero) q) h g same f =
      Ended-earlier s p q (more s (pos 0) q) f.1
        (ends 0 q (omega arith) (omega arith) f.0.1 (f.1.0 ∙ same))
  turn-Ended i p (next (negsuc (suc k)) q) h g same f = elim f.0 [ ]
  turn-Ended i p (leave j q) h g same f = (refl, f.0, f.1)
  turn-Ended i p (swap t j q) h g same f = elim f [ ]
  turn-Ended i p (gives found) h g same f = (refl, f)
  turn-Ended i p (again local text kept) h g same f = f
  turn-Ended i p crash h g same f = f

-- The date loop ends on fuel for the characters that are left.
pub date_loop-Ended :
    (u : Tables) (n : ℕ) (s : Bytes) (i : ℕ) (p : Parser)
    → 1 ≤ n
    → length s + slack p.state_date + 1 ≤ n + i
    → floor p.state_date ≤ i
    → p.datestr ≡ s
    → Ended s p (loop (date_turn u) n s (pos i) p)
unfolding loop
date_loop-Ended u zero s i p h g l same = elim h [ ]
date_loop-Ended u (suc n) s i p h g l same = elim (Bool-cases (ltb i (length s))) [
  | inr e ↦ rw (e, loop) (refl, tt, (refl, refl, refl, refl, refl))
  | inl e ↦
      rw (e, loop)
        (turn-Ended s (loop (date_turn u) n) n (λ j q. date_loop-Ended u n s j q) i p
          (date_turn u s i p) (omega tests) (omega arith) same
          (date_turn-Fine u s i p l (omega tests) same))
]
