-- ===== src/DateParse/Ready.antt =====
-- One run of `parseTime` returns an error, or a parser on which `parse` does not panic.
use watchmaker.Prelude.{
  ℕ, ◌+◌, ◌≡◌, ◌≤◌, ◌<◌, ◌∙◌, refl, sym, ap, subst, Bool-cases, inl, inr, arith, length, drop,
}
use watchmaker.Prelude.Int.{ℤ, pos, negsuc}
use watchmaker.Prelude.Outcome.{Outcome, ok, fail, panic, hung}
use watchmaker.Go.Text.{Bytes}
use watchmaker.Go.Words.{two_63}
use watchmaker.Errors.{Error}
use watchmaker.DateParse.States.{is_time_start, time_start, DateState}
use watchmaker.DateParse.Fields.{Parser, coalesce_date, to_nat}
use watchmaker.DateParse.Time.{bind}
use watchmaker.DateParse.Runes.{Tables}
use watchmaker.DateParse.Loop.{Reply, gave, calls, Stop, behind, replies, loop}
use watchmaker.DateParse.Aligned.{coalesce_date-Keeps}
use watchmaker.DateParse.Usable.{UsableFound}
use watchmaker.DateParse.Once.{IsNew, Start-Sound, is_time_start_lem, time_index}
use watchmaker.DateParse.Date.Turn.{date_turn}
use watchmaker.DateParse.Date.Ends.{Ended, date_loop-Ended}
use watchmaker.DateParse.Date.Month.{WordsOf}
use watchmaker.DateParse.Date.Month.Words.{LowersMonths}
use watchmaker.DateParse.Date.Spelled.{SpelledStop, date_loop-SpelledStop}
use watchmaker.DateParse.Date.Result.{coalesce_date-Writes, date_end-UsableFound}
use watchmaker.DateParse.Clock.Turn.{time_turn}
use watchmaker.DateParse.Clock.End.{time_end}
use watchmaker.DateParse.Clock.Kept.{coalesce_time-Returns}
use watchmaker.DateParse.Clock.Sound.{Sound}
use watchmaker.DateParse.Clock.Ends.{Finished, time_loop-Finished}
use watchmaker.DateParse.Clock.Rest.{Rested, time_end-Rested}
use watchmaker.DateParse.Clock.Room.{Words, HasWords, Roomy}
use watchmaker.DateParse.Clock.Room.Loop.{LeavesRoom, time_loop-LeavesRoom}
use watchmaker.DateParse.Clock.Room.End.{HoldsBehind, time_end-HoldsBehind}
use watchmaker.DateParse.Whole.{spaces, reply, ends, time_part, behind_date, parse_once}

-- Results that `parse` can be applied to, if there are results.
abbrev pub IsReady : Outcome Error Reply → Type 0
IsReady (ok (gave t f)) = UsableFound f
IsReady _ = Unit

abbrev words_of : Parser → Words
words_of p = record { month = p.full_month; skipped = p.skip; date = p.state_date }

WordsOf-moved :
    (at : DateState) (n : ℕ) (p q : Parser)
    → WordsOf at n p
    → q.full_month ≡ p.full_month
    → q.skip ≡ p.skip
    → length p.full_month ≤ length q.format
    → WordsOf at n q
WordsOf-moved _ n p q h month skip fits = ground arith

WordsOf-fits :
    (at : DateState) (n : ℕ) (p : Parser)
    → WordsOf at n p
    → (length p.full_month ≤ length p.format) × (length p.full_month ≤ n)
WordsOf-fits _ n p h = ground arith

module _ (n : ℕ) (first : Parser) (start : WordsOf first.state_date n first) where
  Holds-WordsOf : (p : Parser) → HasWords (words_of first) p → WordsOf p.state_date n p
  Holds-WordsOf p h =
      subst (λ at. WordsOf at n p) (sym h.2)
        (WordsOf-moved first.state_date n first p start h.0 h.1 h.3)

  reply-IsReady :
      (s : Bytes) (x : Outcome Error Stop)
      → Rested s x
      → HoldsBehind (words_of first) x
      → IsReady (bind x reply)
  reply-IsReady s (ok (behind v i q)) r h =
      let (p, returns, kept) = coalesce_time-Returns i q r.1 in
      rw returns (
        date_end-UsableFound v i n p
          (Holds-WordsOf p
            (kept.3 ∙ h.1.0, kept.4 ∙ h.1.1, kept.1.0 ∙ h.1.2, omega (arith, h.1.3, kept.0.1)))
          (kept.0.1 ∙ (h.0 ∙ ap length (sym kept.0.0))))
  reply-IsReady s (ok (replies (gave v f))) r h = h
  reply-IsReady s (ok (replies (calls local text kept))) r h = tt
  reply-IsReady s (fail e) r h = tt
  reply-IsReady s panic r h = tt
  reply-IsReady s hung r h = tt

  ends-IsReady :
      (s : Bytes) (x : Outcome Error Stop)
      → length s < two_63
      → Finished s x
      → LeavesRoom (words_of first) x
      → IsReady (bind (bind x ends) reply)
  ends-IsReady s (ok (behind t i q)) short f h =
      reply-IsReady t (time_end t i q) (time_end-Rested t i q f.2 (omega (arith, f.0)) f.3)
        (time_end-HoldsBehind (words_of first) t i q (f.2.0, h.0) h.1)
  ends-IsReady s (ok (replies (gave t f))) short d h = elim d [ ]
  ends-IsReady s (ok (replies (calls local text kept))) short f h = tt
  ends-IsReady s (fail e) short f h = tt
  ends-IsReady s panic short f h = tt
  ends-IsReady s hung short f h = tt

  time_part-IsReady :
      (u : Tables) (s : Bytes) (i : ℤ)
      → length s < two_63
      → n ≤ to_nat i
      → ((k : ℕ) → Sound s k first)
      → first.state_time ≡ time_start
      → length first.format ≡ length s
      → IsReady (time_part u s i first)
  unfolding time_part
  time_part-IsReady u s (negsuc k) short le sound at size = tt
  time_part-IsReady u s (pos i) short le sound at size =
      let j = i + spaces (drop i s) in
      let fits = WordsOf-fits first.state_date n first start in
      let roomy : Roomy (words_of first) s j first =
        ((refl, refl, refl, fits.0), ground (arith, fits.1)) in
      ends-IsReady s (loop (time_turn u) (length s + 1) s (pos j) first) short
        (time_loop-Finished u (length s + 1) s j first (omega arith) (omega arith) short (sound j))
        (time_loop-LeavesRoom u (words_of first) (length s + 1) s j first short (sound j) roomy)

-- The time starts at the index behind the date, or behind one more character.
time_index-le : (i : ℤ) (p : Parser) → to_nat i ≤ to_nat (time_index i p)
time_index-le (pos n) p = ground arith
time_index-le (negsuc n) p = ground arith

behind_date-IsReady :
    (u : Tables) (s : Bytes) (p : Parser) (x : Outcome Error Stop)
    → length s < two_63
    → p.datestr ≡ s
    → length p.format ≡ length s
    → p.msi ≡ pos 0
    → p.mslen ≡ pos 0
    → Ended s p x
    → SpelledStop x
    → IsReady (bind x (behind_date u))
unfolding behind_date
behind_date-IsReady u s p (ok (behind t i q)) short text size start count (e, index, same) spelled =
    let r = coalesce_date i q in
    let kept = coalesce_date-Keeps i q in
    let writes = coalesce_date-Writes i q in
    let length_r : length r.format ≡ length t = kept.size ∙ (same.1 ∙ (size ∙ ap length (sym e))) in
    let text_r : r.datestr ≡ t = kept.text ∙ (same.0 ∙ (text ∙ sym e)) in
    let fits = WordsOf-fits q.state_date (to_nat i) q spelled in
    let words : WordsOf r.state_date (to_nat i) r =
      subst (λ at. WordsOf at (to_nat i) r) (sym writes.3)
        (WordsOf-moved q.state_date (to_nat i) q r spelled writes.0 writes.1
          (omega (arith, fits.0, writes.2))) in
    elim (Bool-cases (is_time_start r.state_time)) [
      | inr h ↦
          rw (h, behind_date)
            (date_end-UsableFound t i (to_nat i) r words (length_r ∙ ap length (sym text_r)))
      | inl h ↦
          let at = is_time_start_lem r.state_time h in
          rw (h, behind_date)
            (time_part-IsReady (to_nat i) r words u t (time_index i r) (omega (arith, ap length e))
              (time_index-le i r)
              (Start-Sound t r at text_r length_r (kept.start ∙ (same.2 ∙ start))
                (kept.count ∙ (same.3 ∙ count)))
              at length_r)
    ]
behind_date-IsReady u s p (ok (replies (gave t f))) short text size start count e h = h
behind_date-IsReady u s p (ok (replies (calls local t kept))) short text size start count e h = tt
behind_date-IsReady u s p (fail e) short text size start count d h = tt
behind_date-IsReady u s p panic short text size start count d h = tt
behind_date-IsReady u s p hung short text size start count d h = tt

-- One run on a new parser gives an error, or a parser whose layout and text `parse` can use, or it
-- calls `parseTime`.
pub parse_once-IsReady :
    (u : Tables) (s : Bytes) (p : Parser)
    → LowersMonths u
    → length s < two_63
    → IsNew s p
    → IsReady (parse_once u s p)
unfolding parse_once
parse_once-IsReady u s p low short (text, layout, state, start, count, month, skip) =
    behind_date-IsReady u s p (loop (date_turn u) (length s + 2) s (pos 0) p) short text
      (ap length layout) start count
      (date_loop-Ended u (length s + 2) s 0 p (omega arith) (ground arith) (ground arith) text)
      (date_loop-SpelledStop u (length s + 2) s 0 p low (ground arith) text (ap length layout)
        (subst (λ at. WordsOf at 0 p) (sym state) (month, skip)))
