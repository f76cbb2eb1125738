-- ===== src/DateParse/Time.antt =====
-- `coalesceTime`, `setFullMonth`, `trimExtra`, `parse`, and the names of days and months.
use watchmaker.Prelude.{
  ℕ, zero, suc, ◌+◌, List, [], ◌∷◌, ◌++◌, Bool, true, false, ◌&&◌, Option, none, some, ltb,
  if◌then◌else◌, length, take, drop,
}
use watchmaker.Prelude.{set as set_elem}
use watchmaker.Prelude.Int.{ℤ, pos, negsuc, ◌-ℤ◌}
use watchmaker.Prelude.Outcome.{Outcome, ok, fail, panic, hung}
use watchmaker.Go.Text.{Bytes, codes, equal}
use watchmaker.Go.Words.{wrap64}
use watchmaker.Errors.{Error}
use watchmaker.DateParse.Fields.{Parser, equals, is_above_zero, to_nat, set}

-- The three parts of `coalesceTime` that set the hour, the minute and the second.
unfoldable pub coalesce_hour : Parser → Parser
unfolding set
coalesce_hour p =
    if is_above_zero p.houri
    then (if equals p.hourlen 2
        then set p.houri (codes "15") p
        else if equals p.hourlen 1
        then set p.houri (codes "3") p
        else p)
    else p

abbrev pub with_minlen : ℤ → Parser → Parser
with_minlen end p = if equals p.minlen 0 then record p { minlen = wrap64 (end -ℤ p.mini) } else p

unfoldable pub coalesce_minute : ℤ → Parser → Parser
unfolding set
coalesce_minute end p =
    if is_above_zero p.mini
    then (let q = with_minlen end p in
        if equals q.minlen 2 then set q.mini (codes "04") q else set q.mini (codes "4") q)
    else p

abbrev pub with_seclen : ℤ → Parser → Parser
with_seclen end p = if equals p.seclen 0 then record p { seclen = wrap64 (end -ℤ p.seci) } else p

unfoldable pub coalesce_second : ℤ → Parser → Parser
unfolding set
coalesce_second end p =
    if is_above_zero p.seci
    then (let q = with_seclen end p in
        if equals q.seclen 2 then set q.seci (codes "05") q else set q.seci (codes "5") q)
    else p

-- The loop over the parts of a second: a position behind the layout is out of range.
unfoldable pub zero_digits : ℕ → ℕ → Bytes → Outcome Error Bytes
zero_digits zero at format = ok format
zero_digits (suc n) at format =
    if ltb at (length format) then zero_digits n (at + 1) (set_elem format at b'0') else panic

abbrev pub with_format : Parser → Outcome Error Bytes → Outcome Error Parser
with_format p (ok format) = ok (record p { format = format })
with_format p (fail e) = fail e
with_format p panic = panic
with_format p hung = hung

-- `set` with its panics: a position behind the layout is out of range.
unfoldable pub put_bytes : Bytes → ℕ → Bytes → Outcome Error Bytes
put_bytes format at [] = ok format
put_bytes format at (c ∷ cs) =
    if ltb at (length format) then put_bytes (set_elem format at c) (at + 1) cs else panic

unfoldable pub set_or_panic : ℤ → Bytes → Parser → Outcome Error Parser
unfolding put_bytes
set_or_panic (negsuc n) val p = ok p
set_or_panic (pos start) val p =
    if ltb (length p.format) (start + length val)
    then ok p
    else with_format p (put_bytes p.format start val)

unfoldable pub coalesce_fraction : Parser → Outcome Error Parser
unfolding zero_digits
coalesce_fraction p =
    if is_above_zero p.msi
    then with_format p (zero_digits (to_nat p.mslen) (to_nat p.msi) p.format)
    else ok p

-- `coalesceTime`.
unfoldable pub coalesce_time : ℤ → Parser → Outcome Error Parser
unfolding coalesce_hour coalesce_minute coalesce_second coalesce_fraction
coalesce_time end p =
    coalesce_fraction (coalesce_second end (coalesce_minute end (coalesce_hour p)))

-- `setFullMonth`: a month longer than the layout is out of range.
unfoldable pub set_full_month : Bytes → Parser → Outcome Error Parser
set_full_month month p =
    if equals p.moi 0
    then (if ltb (length p.format) (length month)
        then panic
        else ok (record p { format = codes "January" ++ drop (length month) p.format }))
    else ok p

-- `trimExtra`: the layout is longer than `extra`; the text may not be.
unfoldable pub trim_extra : Parser → Outcome Error Parser
trim_extra p =
    if is_above_zero p.extra && ltb (to_nat p.extra) (length p.format)
    then (if ltb (length p.datestr) (to_nat p.extra)
        then panic
        else ok (record p {
          format = take (to_nat p.extra) p.format;
          datestr = take (to_nat p.extra) p.datestr;
        }))
    else ok p

-- The two steps of `parse` before the layout is used.
unfoldable pub with_full_month : Parser → Outcome Error Parser
unfolding set_full_month
with_full_month p = if ltb 0 (length p.full_month) then set_full_month p.full_month p else ok p

unfoldable pub without_skip : Parser → Outcome Error Parser
without_skip p =
    if is_above_zero p.skip && ltb (to_nat p.skip) (length p.format)
    then (if ltb (length p.datestr) (to_nat p.skip)
        then panic
        else ok (record p {
          format = drop (to_nat p.skip) p.format;
          datestr = drop (to_nat p.skip) p.datestr;
        }))
    else ok p

-- `time.Parse` and `time.ParseInLocation`, of a layout and a text.
abbrev pub Reader : Type 0
Reader = Option Bytes → Bytes → Bytes → Outcome Error ℤ

abbrev pub bind : {A B : Type 0} → Outcome Error A → (A → Outcome Error B) → Outcome Error B
bind (ok a) f = f a
bind (fail e) f = fail e
bind panic f = panic
bind hung f = hung

-- `parse`.
unfoldable pub parse : Reader → Parser → Outcome Error ℤ
unfolding with_full_month without_skip
parse read p = elim p.t [
  | some t ↦ ok t
  | none ↦ bind (with_full_month p) λ q. bind (without_skip q) λ r. read r.loc r.format r.datestr
]

-- `days` and `months`.
abbrev pub days : List Bytes
days =
    codes "mon"
    ∷ codes "tue"
    ∷ codes "wed"
    ∷ codes "thu"
    ∷ codes "fri"
    ∷ codes "sat"
    ∷ codes "sun"
    ∷ codes "monday"
    ∷ codes "tuesday"
    ∷ codes "wednesday"
    ∷ codes "thursday"
    ∷ codes "friday"
    ∷ codes "saturday"
    ∷ codes "sunday"
    ∷ []

abbrev pub months : List Bytes
months =
    codes "january"
    ∷ codes "february"
    ∷ codes "march"
    ∷ codes "april"
    ∷ codes "may"
    ∷ codes "june"
    ∷ codes "july"
    ∷ codes "august"
    ∷ codes "september"
    ∷ codes "october"
    ∷ codes "november"
    ∷ codes "december"
    ∷ []

unfoldable pub is_one_of : List Bytes → Bytes → Bool
is_one_of [] alpha = false
is_one_of (name ∷ names) alpha = if equal alpha name then true else is_one_of names alpha

-- `isDay` and `isMonthFull`.
unfoldable pub is_day : Bytes → Bool
unfolding is_one_of
is_day alpha = is_one_of days alpha

unfoldable pub is_month_full : Bytes → Bool
unfolding is_one_of
is_month_full alpha = is_one_of months alpha
