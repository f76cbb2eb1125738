-- ===== src/DateParse/Fields.antt =====
-- `parser` and its methods. The positions and lengths are Go's `int`, so they are integers; a
-- location is its name.
use watchmaker.Prelude.{
  ℕ, ◌+◌, List, [], ◌∷◌, Bool, true, false, ◌&&◌, Option, none, ltb, ◌==◌, if◌then◌else◌, length,
  get_or,
}
use watchmaker.Prelude.{set as set_elem}
use watchmaker.Prelude.Int.{ℤ, pos, negsuc, ◌-ℤ◌}
use watchmaker.Go.Text.{Bytes, codes}
use watchmaker.Go.Words.{wrap64}
use watchmaker.DateParse.States.{DateState, TimeState, date_start, time_ignore}

pub record Parser : Type 0 where
  pub loc : Option Bytes
  pub prefer_month_first : Bool
  pub retry_ambiguous_date_with_swap : Bool
  pub ambiguous_md : Bool
  pub state_date : DateState
  pub state_time : TimeState
  pub format : Bytes
  pub datestr : Bytes
  pub full_month : Bytes
  pub skip : ℤ
  pub extra : ℤ
  pub part1_len : ℤ
  pub yeari : ℤ
  pub yearlen : ℤ
  pub moi : ℤ
  pub molen : ℤ
  pub dayi : ℤ
  pub daylen : ℤ
  pub houri : ℤ
  pub hourlen : ℤ
  pub mini : ℤ
  pub minlen : ℤ
  pub seci : ℤ
  pub seclen : ℤ
  pub msi : ℤ
  pub mslen : ℤ
  pub offseti : ℤ
  pub offsetlen : ℤ
  pub tzi : ℤ
  pub tzlen : ℤ
  pub t : Option ℤ

-- `PreferMonthFirst` and `RetryAmbiguousDateWithSwap`.
abbrev pub ParserOption : Type 0
ParserOption = Parser → Parser

unfoldable pub prefer_month_first : Bool → ParserOption
prefer_month_first b p = record p { prefer_month_first = b }

unfoldable pub retry_ambiguous_date_with_swap : Bool → ParserOption
retry_ambiguous_date_with_swap b p = record p { retry_ambiguous_date_with_swap = b }

unfoldable pub apply_options : List ParserOption → Parser → Parser
apply_options [] p = p
apply_options (option ∷ options) p = apply_options options (option p)

-- `newParser`.
unfoldable pub new_parser : Bytes → Option Bytes → List ParserOption → Parser
unfolding apply_options
new_parser datestr loc options = apply_options options (record {
  loc = loc;
  prefer_month_first = true;
  retry_ambiguous_date_with_swap = false;
  ambiguous_md = false;
  state_date = date_start;
  state_time = time_ignore;
  format = datestr;
  datestr = datestr;
  full_month = [];
  skip = pos 0;
  extra = pos 0;
  part1_len = pos 0;
  yeari = pos 0;
  yearlen = pos 0;
  moi = pos 0;
  molen = pos 0;
  dayi = pos 0;
  daylen = pos 0;
  houri = pos 0;
  hourlen = pos 0;
  mini = pos 0;
  minlen = pos 0;
  seci = pos 0;
  seclen = pos 0;
  msi = pos 0;
  mslen = pos 0;
  offseti = pos 0;
  offsetlen = pos 0;
  tzi = pos 0;
  tzlen = pos 0;
  t = none;
})

-- `z == k` and `z > 0`.
abbrev pub equals : ℤ → ℕ → Bool
equals (pos n) k = n == k
equals (negsuc n) k = false

abbrev pub is_above_zero : ℤ → Bool
is_above_zero (pos n) = ltb 0 n
is_above_zero (negsuc n) = false

-- A position or a count that is not negative.
abbrev pub to_nat : ℤ → ℕ
to_nat (pos n) = n
to_nat (negsuc n) = 0

-- `nextIs`.
unfoldable pub next_is : ℕ → ℕ → Parser → Bool
next_is i b p = ltb (i + 1) (length p.datestr) && get_or p.datestr (i + 1) 0 == b

-- The loop of `set` over the bytes of an ASCII text. It is called where the bytes fit; what Go does
-- with a position behind the layout is in `set_or_panic`.
unfoldable pub put_all : Bytes → ℕ → Bytes → Bytes
put_all format at [] = format
put_all format at (c ∷ cs) = put_all (set_elem format at c) (at + 1) cs

-- `set`.
unfoldable pub set : ℤ → Bytes → Parser → Parser
unfolding put_all
set (negsuc n) val p = p
set (pos start) val p =
    if ltb (length p.format) (start + length val)
    then p
    else record p { format = put_all p.format start val }

-- `setMonth`, `setDay` and `setYear`.
unfoldable pub set_month : Parser → Parser
unfolding set
set_month p =
    if equals p.molen 2
    then set p.moi (codes "01") p
    else if equals p.molen 1
    then set p.moi (codes "1") p
    else p

unfoldable pub set_day : Parser → Parser
unfolding set
set_day p =
    if equals p.daylen 2
    then set p.dayi (codes "02") p
    else if equals p.daylen 1
    then set p.dayi (codes "2") p
    else p

unfoldable pub set_year : Parser → Parser
unfolding set
set_year p =
    if equals p.yearlen 2
    then set p.yeari (codes "06") p
    else if equals p.yearlen 4
    then set p.yeari (codes "2006") p
    else p

-- The three parts of `coalesceDate`.
unfoldable pub coalesce_year : ℤ → Parser → Parser
unfolding set_year
coalesce_year end p =
    if is_above_zero p.yeari
    then set_year (if equals p.yearlen 0 then record p { yearlen = wrap64 (end -ℤ p.yeari) } else p)
    else p

unfoldable pub coalesce_month : ℤ → Parser → Parser
unfolding set_month
coalesce_month end p =
    if is_above_zero p.moi && equals p.molen 0
    then set_month (record p { molen = wrap64 (end -ℤ p.moi) })
    else p

unfoldable pub coalesce_day : ℤ → Parser → Parser
unfolding set_day
coalesce_day end p =
    if is_above_zero p.dayi && equals p.daylen 0
    then set_day (record p { daylen = wrap64 (end -ℤ p.dayi) })
    else p

-- `coalesceDate`.
unfoldable pub coalesce_date : ℤ → Parser → Parser
unfolding coalesce_year coalesce_month coalesce_day
coalesce_date end p = coalesce_day end (coalesce_month end (coalesce_year end p))
