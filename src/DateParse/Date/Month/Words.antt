-- ===== src/DateParse/Date/Month/Words.antt =====
-- The words of a date in the turns of the date loop in dates that start with a word.
use watchmaker.Prelude.{
  ℕ, ◌≡◌, ◌≤◌, arith, length, take, true, Bool-cases, inl, inr, length-take, length-map, ◌∙◌, ap,
  sym, if◌then◌else◌,
}
use watchmaker.Go.Text.{Bytes, to_lower, lower}
use watchmaker.DateParse.States.{
  date_alpha, date_alpha_ws, date_alpha_ws_digit, date_alpha_ws_digit_more,
  date_alpha_ws_digit_more_ws, date_alpha_ws_digit_yearmaybe,
}
use watchmaker.DateParse.Fields.{Parser}
use watchmaker.DateParse.Runes.{Tables, is_ascii, lower_text}
use watchmaker.DateParse.Time.{is_month_full}
use watchmaker.DateParse.Date.Month.{
  Spelled, WordsOf, set-Writes, set_month-Writes, set_day-Writes, set_year-Writes,
}
use watchmaker.DateParse.Date.Words.{
  alpha_step, alpha_ws_step, ws_digit_step, yearmaybe_step, digit_more_step, digit_more_ws_step,
}

module _ (u : Tables) (s : Bytes) (i r : ℕ) (p : Parser) where
  pub alpha_ws-Spelled :
      p.state_date ≡ date_alpha_ws → WordsOf p.state_date i p → Spelled i (alpha_ws_step u i r p)
  unfolding alpha_ws_step
  alpha_ws-Spelled h g =
      grind (arith, set-Writes, set_month-Writes, set_day-Writes, set_year-Writes)

  pub ws_digit-Spelled :
      p.state_date ≡ date_alpha_ws_digit
      → WordsOf p.state_date i p
      → Spelled i (ws_digit_step u i r p)
  unfolding ws_digit_step
  ws_digit-Spelled h g =
      grind (arith, set-Writes, set_month-Writes, set_day-Writes, set_year-Writes)

  pub yearmaybe-Spelled :
      p.state_date ≡ date_alpha_ws_digit_yearmaybe
      → WordsOf p.state_date i p
      → Spelled i (yearmaybe_step i r p)
  unfolding yearmaybe_step
  yearmaybe-Spelled h g =
      grind (arith, set-Writes, set_month-Writes, set_day-Writes, set_year-Writes)

  pub digit_more-Spelled :
      p.state_date ≡ date_alpha_ws_digit_more
      → WordsOf p.state_date i p
      → Spelled i (digit_more_step i r p)
  unfolding digit_more_step
  digit_more-Spelled h g =
      grind (arith, set-Writes, set_month-Writes, set_day-Writes, set_year-Writes)

  pub digit_more_ws-Spelled :
      p.state_date ≡ date_alpha_ws_digit_more_ws
      → WordsOf p.state_date i p
      → Spelled i (digit_more_ws_step i r p)
  unfolding digit_more_ws_step
  digit_more_ws-Spelled h g =
      grind (arith, set-Writes, set_month-Writes, set_day-Writes, set_year-Writes)

-- A name of a month is no longer than the text that it is the lower case of.
abbrev pub LowersMonths : Tables → Type 0
LowersMonths u = (s : Bytes) → is_month_full (u.lowered s) ≡ true → length (u.lowered s) ≤ length s

lower_text-length :
    (u : Tables) (s : Bytes)
    → LowersMonths u
    → is_month_full (lower_text u s) ≡ true
    → length (lower_text u s) ≤ length s
unfolding lower_text to_lower
lower_text-length u s w h = elim (Bool-cases (is_ascii s)) [
  | inl e ↦ rw (e, lower_text) (omega (arith, length-map s lower))
  | inr e ↦
      rw (e, lower_text)
        (w s (ap (λ b. is_month_full (if b then to_lower s else u.lowered s)) (sym e) ∙ h))
]

module _ (u : Tables) (s : Bytes) (i r : ℕ) (p : Parser) where
  pub alpha-Spelled :
      p.state_date ≡ date_alpha
      → WordsOf p.state_date i p
      → LowersMonths u
      → length p.format ≡ length s
      → Spelled i (alpha_step u s i r p)
  unfolding alpha_step
  alpha-Spelled h g w same =
      grind (arith, set-Writes, lower_text-length u (take i s) w, length-take i s)
