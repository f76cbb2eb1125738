-- ===== src/DateParse/Once.antt =====
-- One run of `parseTime`, up to its own calls, ends without a panic.
use watchmaker.Prelude.{
  [], ℕ, ◌+◌, ◌≡◌, ◌≤◌, ◌<◌, ◌∙◌, refl, sym, ap, subst, Option, none, some, true, Bool-cases, inl,
  inr, arith, length, drop, if◌then◌else◌,
}
use watchmaker.Prelude.Int.{ℤ, pos, negsuc, ltb_ℤ}
use watchmaker.Prelude.Outcome.{Outcome, ok, fail, panic, hung}
use watchmaker.Go.Text.{Bytes}
use watchmaker.Go.Words.{two_63}
use watchmaker.Errors.{Error}
use watchmaker.DateParse.States.{
  is_time_start, date_start, date_digit, time_start, DateState, TimeState,
}
use watchmaker.DateParse.Fields.{Parser, coalesce_date}
use watchmaker.DateParse.Time.{bind}
use watchmaker.DateParse.Runes.{Tables}
use watchmaker.DateParse.Weight.{weight}
use watchmaker.DateParse.Steps.{IsProper}
use watchmaker.DateParse.Loop.{Reply, gave, calls, Stop, behind, replies, raised, loop}
use watchmaker.DateParse.Aligned.{coalesce_date-Keeps}
use watchmaker.DateParse.Date.Fine.{IsIndex}
use watchmaker.DateParse.Date.Turn.{date_turn}
use watchmaker.DateParse.Date.Ends.{Ended, date_loop-Ended}
use watchmaker.DateParse.Date.End.{date_end_at, date_end, digits_end, at_time}
use watchmaker.DateParse.Clock.Turn.{time_turn}
use watchmaker.DateParse.Clock.End.{time_end}
use watchmaker.DateParse.Clock.Kept.{coalesce_time-Returns}
use watchmaker.DateParse.Clock.Sound.{Sound}
use watchmaker.DateParse.Clock.Ends.{Finished, time_loop-Finished}
use watchmaker.DateParse.Clock.Rest.{Rested, time_end-Rested}
use watchmaker.DateParse.Whole.{spaces, reply, ends, time_part, behind_date, parse_once}

-- Proper results, or a call with a text that weighs less.
abbrev pub Replied : Bytes → Outcome Error Reply → Type 0
Replied s (ok (gave t f)) = (weight t ≤ weight s) × IsProper f
Replied s (ok (calls local text kept)) = (weight text + 1 ≤ weight s) × (weight local ≤ weight s)
Replied s (fail e) = ⊥
Replied s panic = ⊥
Replied s hung = ⊥

at_time-IsProper : (s : Bytes) (o : Option ℤ) (p : Parser) → IsProper (at_time s o p)
unfolding at_time
at_time-IsProper s none p = ground arith
at_time-IsProper s (some t) p = ground arith

digits_end-IsProper : (s : Bytes) (p : Parser) → IsProper (digits_end s p)
unfolding digits_end
digits_end-IsProper s p = grind (arith, at_time-IsProper)

date_end_at-IsProper :
    (at : DateState) (s : Bytes) (i : ℤ) (p : Parser) → IsProper (date_end_at at s i p)
unfolding date_end_at
date_end_at-IsProper date_digit s i p = digits_end-IsProper s p
date_end_at-IsProper _ s i p = ground arith

date_end-IsProper : (s : Bytes) (i : ℤ) (p : Parser) → IsProper (date_end s i p)
unfolding date_end
date_end-IsProper s i p = date_end_at-IsProper p.state_date s i p

-- Behind the time loop.
reply-Replied :
    (s t : Bytes) (x : Outcome Error Stop)
    → weight t ≤ weight s
    → Rested t x
    → Replied s (bind x reply)
reply-Replied s t (ok (behind v i q)) h r =
    let (p, returns, kept) = coalesce_time-Returns i q r.1 in
    rw returns (omega (arith, ap weight r.0), date_end-IsProper v i p)
reply-Replied s t (ok (replies (gave v f))) h r = (omega (arith, ap weight r.0), r.1)
reply-Replied s t (ok (replies (calls local text kept))) h r = elim r [ ]
reply-Replied s t (fail e) h r = r
reply-Replied s t panic h r = r
reply-Replied s t hung h r = r

ends-Replied :
    (s : Bytes) (x : Outcome Error Stop)
    → length s < two_63
    → Finished s x
    → Replied s (bind (bind x ends) reply)
ends-Replied s (ok (behind t i q)) short f =
    reply-Replied s t (time_end t i q) f.1 (time_end-Rested t i q f.2 (omega (arith, f.0)) f.3)
ends-Replied s (ok (replies (gave t f))) short d = elim d [ ]
ends-Replied s (ok (replies (calls local text kept))) short f = f
ends-Replied s (fail e) short f = f
ends-Replied s panic short f = f
ends-Replied s hung short f = f

time_part-Replied :
    (u : Tables) (s : Bytes) (i : ℤ) (p : Parser)
    → IsIndex i
    → length s < two_63
    → ((k : ℕ) → Sound s k p)
    → Replied s (time_part u s i p)
unfolding time_part
time_part-Replied u s (negsuc k) p d short sound = d
time_part-Replied u s (pos i) p d short sound =
    let j = i + spaces (drop i s) in
    ends-Replied s (loop (time_turn u) (length s + 1) s (pos j) p) short
      (time_loop-Finished u (length s + 1) s j p (omega arith) (omega arith) short (sound j))

-- A parser that has read a date, at a time that starts.
pub Start-Sound :
    (s : Bytes) (p : Parser)
    → p.state_time ≡ time_start
    → p.datestr ≡ s
    → length p.format ≡ length s
    → p.msi ≡ pos 0
    → p.mslen ≡ pos 0
    → (k : ℕ) → Sound s k p
Start-Sound s p h text size start count k = ground arith

pub is_time_start_lem : (at : TimeState) → is_time_start at ≡ true → at ≡ time_start
is_time_start_lem time_start h = refl
is_time_start_lem _ h = absurd (cc)

abbrev pub time_index : ℤ → Parser → ℤ
time_index i q = if ltb_ℤ i (pos (length q.datestr)) then raised i else i

pub time_index-IsIndex : (i : ℤ) (q : Parser) → IsIndex (raised i) → IsIndex (time_index i q)
time_index-IsIndex (pos n) q h = ground arith
time_index-IsIndex (negsuc n) q h = ground arith

behind_date-Replied :
    (u : Tables) (s : Bytes) (p : Parser) (x : Outcome Error Stop)
    → length s < two_63
    → p.datestr ≡ s
    → length p.format ≡ length s
    → p.msi ≡ pos 0
    → p.mslen ≡ pos 0
    → Ended s p x
    → Replied s (bind x (behind_date u))
unfolding behind_date
behind_date-Replied u s p (ok (behind t i q)) short text size start count (e, index, same) =
    let r = coalesce_date i q in
    let kept = coalesce_date-Keeps i q in
    elim (Bool-cases (is_time_start r.state_time)) [
      | inr h ↦ rw (h, behind_date) (omega (arith, ap weight e), date_end-IsProper t i r)
      | inl h ↦
          rw (h, behind_date)
            (subst (λ v. Replied v (time_part u t (time_index i r) r)) e
              (time_part-Replied u t (time_index i r) r (time_index-IsIndex i r index)
                (omega (arith, ap length e))
                (Start-Sound t r (is_time_start_lem r.state_time h)
                  (kept.text ∙ (same.0 ∙ (text ∙ sym e)))
                  (kept.size ∙ (same.1 ∙ (size ∙ ap length (sym e))))
                  (kept.start ∙ (same.2 ∙ start)) (kept.count ∙ (same.3 ∙ count)))))
    ]
behind_date-Replied u s p (ok (replies (gave t f))) short text size start count e =
    (omega (arith, ap weight e.0), e.1)
behind_date-Replied u s p (ok (replies (calls local t kept))) short text size start count e = e
behind_date-Replied u s p (fail e) short text size start count d = d
behind_date-Replied u s p panic short text size start count d = d
behind_date-Replied u s p hung short text size start count d = d

-- A parser as `newParser` makes it.
abbrev pub IsNew : Bytes → Parser → Type 0
IsNew s p =
    (p.datestr ≡ s)
    × (p.format ≡ s)
    × (p.state_date ≡ date_start)
    × (p.msi ≡ pos 0)
    × (p.mslen ≡ pos 0)
    × (p.full_month ≡ [])
    × (p.skip ≡ pos 0)

-- One run on a new parser ends without a panic, whatever the text is: it gives its results, or it
-- calls `parseTime` with a text that weighs less.
pub parse_once-Replied :
    (u : Tables) (s : Bytes) (p : Parser)
    → length s < two_63
    → IsNew s p
    → Replied s (parse_once u s p)
unfolding parse_once
parse_once-Replied u s p short (text, layout, state, start, count, month, skip) =
    behind_date-Replied u s p (loop (date_turn u) (length s + 2) s (pos 0) p) short text
      (ap length layout) start count
      (date_loop-Ended u (length s + 2) s 0 p (omega arith) (ground arith) (ground arith) text)
