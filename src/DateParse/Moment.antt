-- ===== src/DateParse/Moment.antt =====
-- Dates with dashes, and a time of day behind them.
use watchmaker.Prelude.{
  ℕ, ◌+◌, ◌≡◌, ◌∙◌, refl, ap, [], ◌∷◌, true, false, none, arith, get_or, if◌then◌else◌,
}
use watchmaker.Prelude.Int.{pos, ◌-ℤ◌}
use watchmaker.Prelude.Outcome.{ok}
use watchmaker.Go.Text.{Bytes, codes}
use watchmaker.Go.Words.{int64, uint64}
use watchmaker.DateParse.States.{
  date_digit, date_year_dash_dash, date_year_dash_dash_ws, time_start,
}
use watchmaker.DateParse.Fields.{
  Parser, new_parser, apply_options, set, put_all, set_month, set_day, coalesce_date, equals,
}
use watchmaker.DateParse.Time.{
  Reader, bind, parse, with_full_month, without_skip, coalesce_time, coalesce_hour, coalesce_minute,
  coalesce_second, coalesce_fraction,
}
use watchmaker.DateParse.Runes.{Tables}
use watchmaker.DateParse.Steps.{accept, next}
use watchmaker.DateParse.Loop.{behind, gave, loop}
use watchmaker.DateParse.Date.Digits.{digit_dash, digit_step}
use watchmaker.DateParse.Date.Dashes.{year_dash_step, year_dash_dash_step}
use watchmaker.DateParse.Date.Turn.{date_step, date_turn}
use watchmaker.DateParse.Date.End.{date_end, date_end_at}
use watchmaker.DateParse.Clock.Start.{start_case, time_colon, time_start_step}
use watchmaker.DateParse.Clock.Turn.{time_step, time_turn}
use watchmaker.DateParse.Clock.End.{time_end, time_end_at}
use watchmaker.DateParse.Whole.{
  spaces, time_part, reply, ends, behind_date, parse_once, prepared, parse_time,
}
use watchmaker.DateParse.Exported.{fuel, then_parse, parse_date_any, layout_of, parse_date_format}
use watchmaker.DateParse.Given.{parse_time-fuel}
use watchmaker.DateParse.Runs.{
  IsDigit, AllDigits, date_turn-ascii, loop-next, loop-leave, loop-start, loop-digits, loop-behind,
}

abbrev pub moment : ℕ → ℕ → ℕ → ℕ → ℕ → ℕ → ℕ → ℕ → ℕ → ℕ → ℕ → ℕ → ℕ → ℕ → Bytes
moment y0 y1 y2 y3 m0 m1 d0 d1 h0 h1 n0 n1 s0 s1 =
    y0 ∷ y1 ∷ y2 ∷ y3 ∷ b'-' ∷ m0 ∷ m1 ∷ b'-' ∷ d0 ∷ d1 ∷ b' ' ∷ h0 ∷ h1 ∷ b':' ∷ n0 ∷ n1 ∷ b':'
    ∷ s0 ∷ s1 ∷ []

-- A digit of the time is passed over.
start_case-digit :
    (s : Bytes) (i c : ℕ) (p : Parser) → IsDigit c → start_case s i c p ≡ next (pos i) p
unfolding start_case
start_case-digit s i c p h = ground arith

module _ (u : Tables) (s : Bytes) (i : ℕ) (p : Parser) (state : p.state_time ≡ time_start)
    (digit : IsDigit (get_or s i 0)) where
  hour_starts :
      equals p.houri 0 ≡ true → time_turn u s i p ≡ next (pos i) (record p { houri = pos i })
  unfolding time_turn time_step time_start_step
  hour_starts h =
      let c = get_or s i 0 in
      ap (λ at. time_step at u s i c p) state
      ∙ ap (λ b. start_case s i c (if b then record p { houri = pos i } else p)) h
      ∙ start_case-digit s i c (record p { houri = pos i }) digit

  time_digit : equals p.houri 0 ≡ false → time_turn u s i p ≡ next (pos i) p
  unfolding time_turn time_step time_start_step
  time_digit h =
      let c = get_or s i 0 in
      ap (λ at. time_step at u s i c p) state
      ∙ ap (λ b. start_case s i c (if b then record p { houri = pos i } else p)) h
      ∙ start_case-digit s i c p digit

module _ (u : Tables) (y0 y1 y2 y3 m0 m1 d0 d1 h0 h1 n0 n1 s0 s1 : ℕ)
    (digits : AllDigits
      (y0 ∷ y1 ∷ y2 ∷ y3 ∷ m0 ∷ m1 ∷ d0 ∷ d1 ∷ h0 ∷ h1 ∷ n0 ∷ n1 ∷ s0 ∷ s1 ∷ [])) where
  abbrev s : Bytes
  s = moment y0 y1 y2 y3 m0 m1 d0 d1 h0 h1 n0 n1 s0 s1

  abbrev started : Parser
  started = record (new_parser s none []) { state_date = date_digit }

  abbrev behind_year : Parser
  behind_year = record (digit_dash 4 started) { part1_len = pos 4 }

  abbrev behind_month : Parser
  behind_month =
      set_month
        (record behind_year { molen = pos 2; dayi = pos 8; state_date = date_year_dash_dash })

  abbrev behind_day : Parser
  behind_day = set_day (record behind_month {
    daylen = pos 2;
    state_date = date_year_dash_dash_ws;
    state_time = time_start;
  })

  date_part_loop :
      loop (date_turn u) 21 s (pos 0) (new_parser s none []) ≡ ok (behind s (pos 10) behind_day)
  unfolding new_parser apply_options digit_dash set put_all set_month set_day date_step digit_step
      year_dash_step year_dash_dash_step ◌-ℤ◌ int64 uint64
  date_part_loop =
      loop-start u 20 s (new_parser s none []) refl (omega arith) digits.0
      ∙ loop-digits u 3 17 s 1 started tt (ground arith)
      ∙ loop-next (date_turn u) 16 s 4 started behind_year (omega arith)
          (date_turn-ascii u s 4 started (omega arith) (omega arith))
      ∙ loop-digits u 2 14 s 5 behind_year tt (ground arith)
      ∙ loop-next (date_turn u) 13 s 7 behind_year behind_month (omega arith)
          (date_turn-ascii u s 7 behind_year (omega arith) (omega arith))
      ∙ loop-digits u 2 11 s 8 behind_month tt (ground arith)
      ∙ loop-leave (date_turn u) 10 s 10 behind_month behind_day (pos 10) (omega arith)
          (date_turn-ascii u s 10 behind_month (omega arith) (omega arith))

  abbrev at_hour : Parser
  at_hour = record (coalesce_date (pos 10) behind_day) { houri = pos 11 }

  abbrev at_minute : Parser
  at_minute = record at_hour { mini = pos 14; hourlen = pos 2 }

  abbrev at_second : Parser
  at_second = record at_minute { seci = pos 17; minlen = pos 2 }

  time_part_loop :
      loop (time_turn u) 20 s (pos 11) (coalesce_date (pos 10) behind_day)
      ≡ ok (behind s (pos 19) at_second)
  unfolding new_parser apply_options digit_dash set put_all set_month set_day coalesce_date
      time_turn time_step time_start_step start_case time_colon ◌-ℤ◌ int64 uint64
  time_part_loop =
      loop-next (time_turn u) 19 s 11 (coalesce_date (pos 10) behind_day) at_hour (omega arith)
        (hour_starts u s 11 (coalesce_date (pos 10) behind_day) refl (ground arith) refl)
      ∙ loop-next (time_turn u) 18 s 12 at_hour at_hour (omega arith)
          (time_digit u s 12 at_hour refl (ground arith) refl)
      ∙ loop-next (time_turn u) 17 s 13 at_hour at_minute (omega arith) refl
      ∙ loop-next (time_turn u) 16 s 14 at_minute at_minute (omega arith)
          (time_digit u s 14 at_minute refl (ground arith) refl)
      ∙ loop-next (time_turn u) 15 s 15 at_minute at_minute (omega arith)
          (time_digit u s 15 at_minute refl (ground arith) refl)
      ∙ loop-next (time_turn u) 14 s 16 at_minute at_second (omega arith) refl
      ∙ loop-next (time_turn u) 13 s 17 at_second at_second (omega arith)
          (time_digit u s 17 at_second refl (ground arith) refl)
      ∙ loop-next (time_turn u) 12 s 18 at_second at_second (omega arith)
          (time_digit u s 18 at_second refl (ground arith) refl)
      ∙ loop-behind (time_turn u) 11 s at_second

  no_space : spaces (h0 ∷ h1 ∷ b':' ∷ n0 ∷ n1 ∷ b':' ∷ s0 ∷ s1 ∷ []) ≡ 0
  unfolding spaces
  no_space = ground arith

  -- With the seconds.
  abbrev whole : Parser
  whole = coalesce_second (pos 19) (coalesce_minute (pos 19) (coalesce_hour at_second))

  time_read :
      time_part u s (pos 11) (coalesce_date (pos 10) behind_day) ≡ ok (gave s (accept whole))
  unfolding time_part time_end time_end_at date_end date_end_at new_parser apply_options digit_dash
      set put_all set_month set_day coalesce_date coalesce_time coalesce_hour coalesce_minute
      coalesce_second coalesce_fraction ◌-ℤ◌ int64 uint64
  time_read =
      ap
        (λ k.
          bind
            (bind (loop (time_turn u) 20 s (pos (11 + k)) (coalesce_date (pos 10) behind_day)) ends)
            reply)
        no_space
      ∙ ap (λ x. bind (bind x ends) reply) time_part_loop

  moment_once : parse_once u s (new_parser s none []) ≡ ok (gave s (accept whole))
  unfolding parse_once behind_date new_parser apply_options digit_dash set put_all set_month set_day
      coalesce_date coalesce_time coalesce_hour coalesce_minute coalesce_second coalesce_fraction
      ◌-ℤ◌ int64 uint64
  moment_once = ap (λ x. bind x (behind_date u)) date_part_loop ∙ time_read

  pub moment_run : (read : Reader) → parse_time u read (fuel s) s none [] ≡ ok (accept whole)
  unfolding new_parser apply_options
  moment_run read = parse_time-fuel u read s s none [] (accept whole) moment_once refl

-- A date of 4, 2 and 2 digits with dashes, a space, and a time of three numbers of 2 digits with colons
-- is read in the layout "2006-01-02 15:04:05", which is the layout that `ParseDateFormat` gives when
-- the text can be read.
pub parse_date_any-moment :
    (u : Tables) (read : Reader) (y0 y1 y2 y3 m0 m1 d0 d1 h0 h1 n0 n1 s0 s1 : ℕ)
    → AllDigits (y0 ∷ y1 ∷ y2 ∷ y3 ∷ m0 ∷ m1 ∷ d0 ∷ d1 ∷ h0 ∷ h1 ∷ n0 ∷ n1 ∷ s0 ∷ s1 ∷ [])
    → let s = moment y0 y1 y2 y3 m0 m1 d0 d1 h0 h1 n0 n1 s0 s1 in
      let layout = codes "2006-01-02 15:04:05" in
      (parse_date_any u read s [] ≡ read none layout s)
      × (parse_date_format u read s [] ≡ bind (read none layout s) (λ t. ok layout))
unfolding parse_date_any parse_date_format then_parse layout_of parse prepared with_full_month
    without_skip new_parser apply_options digit_dash set put_all set_month set_day coalesce_date
    coalesce_time coalesce_hour coalesce_minute coalesce_second coalesce_fraction ◌-ℤ◌ int64 uint64
parse_date_any-moment u read y0 y1 y2 y3 m0 m1 d0 d1 h0 h1 n0 n1 s0 s1 digits =
    let run = moment_run u y0 y1 y2 y3 m0 m1 d0 d1 h0 h1 n0 n1 s0 s1 digits read in
    (ap (λ x. bind x (then_parse (parse read))) run, ap (λ x. bind x (layout_of u read)) run)
