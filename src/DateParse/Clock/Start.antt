-- ===== src/DateParse/Clock/Start.antt =====
-- date_parse.go: the turns of the time loop at its start, up to what follows the seconds.
use watchmaker.Prelude.{
  ℕ, ◌+◌, true, ◌&&◌, ◌||◌, ltb, ◌==◌, if◌then◌else◌, length, some, take, drop, ◌++◌,
}
use watchmaker.Prelude.{set as set_elem}
use watchmaker.Prelude.Int.{pos}
use watchmaker.Go.Text.{Bytes, codes}
use watchmaker.DateParse.States.{time_ws, time_offset, time_period, time_z}
use watchmaker.DateParse.Fields.{Parser, set, equals, is_above_zero, next_is}
use watchmaker.DateParse.Time.{coalesce_time}
use watchmaker.DateParse.Steps.{Step, next, again, swap, crash, minus, after}

-- The cases of `timeStart`. A comma becomes a period, and the text is parsed again.
unfoldable pub comma_for_period : Bytes → ℕ → Parser → Step
comma_for_period datestr i p =
    if ltb i (length p.datestr) then again datestr (set_elem p.datestr i b'.') true else crash

-- The parts in front of a sign: the minute, or the second and what is below it.
unfoldable pub sign_after : ℕ → Parser → Parser
sign_after i p =
    if equals p.seci 0
    then record p { minlen = minus i p.mini }
    else (let q = if equals p.seclen 0 then record p { seclen = minus i p.seci } else p in
        if is_above_zero q.msi && equals q.mslen 0 then record q { mslen = minus i q.msi } else q)

unfoldable pub sign_start : ℕ → Parser → Parser
unfolding sign_after
sign_start i p =
    let q = sign_after i (record p { state_time = time_offset }) in record q { offseti = pos i }

unfoldable pub zulu : ℕ → Parser → Parser
zulu i p =
    let q = record p { state_time = time_z } in
    let r =
      if equals q.seci 0
      then record q { minlen = minus i q.mini }
      else record q { seclen = minus i q.seci } in
    record r { loc = some (codes "UTC") }

-- The time in front of "am" or "pm", which is written into the layout.
unfoldable pub half_of_day : Bytes → ℕ → Parser → Step
half_of_day mark i p = after (coalesce_time (pos i) p) λ q. next (pos i) (set (pos i) mark q)

unfoldable pub letter_a : ℕ → ℕ → Parser → Step
unfolding half_of_day
letter_a i r p =
    if next_is i b't' p || next_is i b'T' p
    then (if next_is (i + 1) b' ' p
        then next (pos (i + 2)) (record p { houri = pos 0 })
        else next (pos (i + 1)) p)
    else if r == b'a' && next_is i b'm' p
    then half_of_day (codes "am") i p
    else if r == b'A' && next_is i b'M' p
    then half_of_day (codes "PM") i p
    else next (pos i) p

unfoldable pub letter_p : ℕ → ℕ → Parser → Step
unfolding half_of_day
letter_p i r p =
    if r == b'p' && next_is i b'm' p
    then half_of_day (codes "pm") i p
    else if r == b'P' && next_is i b'M' p
    then half_of_day (codes "PM") i p
    else next (pos i) p

-- A third colon starts the part below a second. It becomes a period, in the layout and in the text.
unfoldable pub third_colon : Bytes → ℕ → Parser → Step
third_colon datestr i p =
    let q = set p.seci (codes "05") (record p { seclen = minus i p.seci }) in
    let r = set (pos i) (codes ".") (record q { msi = pos (i + 1) }) in
    let text = take i datestr ++ (codes "." ++ drop (i + 1) datestr) in
    swap text (pos i) (record r { datestr = text })

unfoldable pub time_colon : Bytes → ℕ → Parser → Step
unfolding third_colon
time_colon datestr i p =
    if equals p.mini 0
    then next (pos i) (record p { mini = pos (i + 1); hourlen = minus i p.houri })
    else if equals p.seci 0
    then next (pos i) (record p { seci = pos (i + 1); minlen = minus i p.mini })
    else if is_above_zero p.seci
    then third_colon datestr i p
    else next (pos i) p

unfoldable pub start_case : Bytes → ℕ → ℕ → Parser → Step
unfolding comma_for_period sign_start zulu letter_a letter_p time_colon
start_case datestr i r p =
    if r == b','
    then comma_for_period datestr i p
    else if r == b'-' || r == b'+'
    then next (pos i) (sign_start i p)
    else if r == b'.'
    then next (pos i)
        (record p { state_time = time_period; seclen = minus i p.seci; msi = pos (i + 1) })
    else if r == b'Z'
    then next (pos i) (zulu i p)
    else if r == b'a' || r == b'A'
    then letter_a i r p
    else if r == b'p' || r == b'P'
    then letter_p i r p
    else if r == b' '
    then after (coalesce_time (pos i) p) (λ q. next (pos i) (record q { state_time = time_ws }))
    else if r == b':'
    then time_colon datestr i p
    else next (pos i) p

unfoldable pub time_start_step : Bytes → ℕ → ℕ → Parser → Step
unfolding start_case
time_start_step datestr i r p =
    start_case datestr i r (if equals p.houri 0 then record p { houri = pos i } else p)
