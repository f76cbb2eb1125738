-- ===== src/Offset.antt =====
-- date_offset.go: the offset of the command line, as a `time.Duration` in nanoseconds. The date
-- parser and the two readings of the clock are arguments, and so are the tables of Unicode behind
-- `strings.ToLower`. An instant is its number of nanoseconds
-- since the epoch.
pub mod Laws
pub mod Decimal
pub mod Units
pub mod CommandLine
pub mod Dated
pub mod Numbers
mod Tests
use watchmaker.Prelude.{
  ℕ, suc, ◌+◌, ◌-◌, ◌*◌, ◌%◌, ◌≡◌, List, [], ◌∷◌, Bool, ◌||◌, Option, none, some, ltb, ◌==◌,
  if◌then◌else◌, length, take, get_or,
}
use watchmaker.Prelude.Int.{ℤ, pos, negsuc, ◌-ℤ◌, ◌*ℤ◌, ltb_ℤ}
use watchmaker.Prelude.Outcome.{Outcome, ok, fail}
use watchmaker.Go.Text.{Bytes, codes, equal}
use watchmaker.DateParse.Runes.{Tables, lower_text}
use watchmaker.Go.Words.{two_63, wrap64}
use watchmaker.Go.Strconv.{atoi}
use watchmaker.Errors.{Error, wrapped, bad_offset}

abbrev pub second : ℤ
second = pos 1_000_000_000

abbrev pub hour : ℤ
hour = pos 3_600_000_000_000

abbrev pub minute : ℤ
minute = pos 60_000_000_000

-- `Time.Nanosecond`: the part below a second.
unfoldable pub nanosecond : ℤ → ℕ
nanosecond (pos n) = n % 1_000_000_000
nanosecond (negsuc n) = 999_999_999 - n % 1_000_000_000

-- `Time.Sub` stops at the ends of `time.Duration`.
unfoldable pub time_sub : ℤ → ℤ → ℤ
time_sub t u =
    let d = t -ℤ u in
    if ltb_ℤ d (negsuc (two_63 - 1))
    then negsuc (two_63 - 1)
    else if ltb_ℤ (pos (two_63 - 1)) d
    then pos (two_63 - 1)
    else d

-- The `switch` on the last byte: products of `time.Duration` wrap.
unfoldable pub scale : ℕ → ℤ → ℤ
scale unit value =
    if unit == b's'
    then wrap64 (value *ℤ second)
    else if unit == b'm'
    then wrap64 (value *ℤ minute)
    else if unit == b'h'
    then wrap64 (value *ℤ hour)
    else if unit == b'd'
    then wrap64 (wrap64 (value *ℤ pos 24) *ℤ hour)
    else if unit == b'y'
    then wrap64 (wrap64 (wrap64 (value *ℤ pos 365) *ℤ pos 24) *ℤ hour)
    else wrap64 (value *ℤ second)

-- `strconv.Atoi` of the whole text, or of all but the last byte.
unfoldable pub value_of : Bytes → Option ℤ
unfolding atoi
value_of s = elim (atoi s) [ some v ↦ some v | none ↦ atoi (take (length s - 1) s) ]

-- The part behind the date: a number with a unit.
unfoldable pub parse_units : Bytes → Outcome Error ℤ
unfolding value_of scale
parse_units s = elim (value_of s) [
  | none ↦ fail (bad_offset s)
  | some v ↦ ok (scale (get_or s (length s - 1) 0) v)
]

-- A date: `now` is read for the comparison of the parts below a second, `later` for the
-- difference.
unfoldable pub offset_of_date : ℤ → ℤ → ℤ → ℤ
unfolding nanosecond time_sub
offset_of_date now later t =
    if ltb (nanosecond now) (nanosecond t) then time_sub later t else time_sub t later

-- The texts that mean no offset.
abbrev pub is_no_offset : Bytes → Bool
is_no_offset s = equal s [] || equal s (codes "0") || equal s (codes "null")

-- `CalculateOffset`.
unfoldable pub calculate_offset : Tables → (Bytes → Option ℤ) → ℤ → ℤ → Bytes → Outcome Error ℤ
unfolding parse_units offset_of_date equal lower_text
calculate_offset u parse_date now later s =
    if is_no_offset s then ok (pos 0) else elim (parse_date s) [
      | some t ↦ ok (offset_of_date now later t)
      | none ↦ parse_units (lower_text u s)
    ]
