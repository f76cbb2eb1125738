-- ===== src/Children/Stat.antt =====
-- `fmt.Fscanf` with the format "%d %s %s %d" of `processStat`, on the content of a stat file. Numbers
-- have no sign, since they are read into `uint64`. The text is gone through character by character.
use watchmaker.Prelude.{
  ℕ, zero, suc, List, [], ◌∷◌, Bool, true, false, ◌||◌, ◌&&◌, Option, none, some, ◌==◌,
  if◌then◌else◌, length, drop,
}
use watchmaker.Go.Text.{Bytes}
use watchmaker.Go.Strconv.{parse_uint}
use watchmaker.DateParse.Runes.{decode_rune, in_range}

-- The characters of a text. Each takes a byte at least, so the length is fuel enough.
unfoldable pub runes_of : ℕ → Bytes → List ℕ
unfolding decode_rune
runes_of zero s = []
runes_of (suc n) [] = []
runes_of (suc n) (c ∷ s) =
    let read = decode_rune (c ∷ s) in let rest = runes_of n (drop read.1 (c ∷ s)) in read.0 ∷ rest

-- White space, as package fmt has it.
abbrev pub is_space : ℕ → Bool
is_space r =
    in_range 0x09 0x0d r
    || r == 0x20
    || r == 0x85
    || r == 0xa0
    || r == 0x1680
    || in_range 0x2000 0x200a r
    || in_range 0x2028 0x2029 r
    || r == 0x202f
    || r == 0x205f
    || r == 0x3000

abbrev pub newline : ℕ
newline = 0x0a

-- `SkipSpace`, in front of each verb: a newline is an error.
unfoldable pub skip_space : List ℕ → Option (List ℕ)
skip_space [] = some []
skip_space (r ∷ rs) =
    let more = skip_space rs in
    if r == newline then none else if is_space r then more else some (r ∷ rs)

abbrev pub skip_blanks : List ℕ → List ℕ
skip_blanks [] = []
skip_blanks (r ∷ rs) =
    let more = skip_blanks rs in
    if is_space r && (if r == newline then false else true) then more else r ∷ rs

-- A space of the format is a space of the text at least, or the end of the text.
unfoldable pub gap : List ℕ → Option (List ℕ)
gap [] = some []
gap (r ∷ rs) = if r == newline then none else if is_space r then some (skip_blanks rs) else none

abbrev pub is_decimal : ℕ → Bool
is_decimal r = in_range b'0' b'9' r

-- The digits in front, and what stands behind them.
unfoldable pub digits_of : List ℕ → List ℕ
digits_of [] = []
digits_of (r ∷ rs) = let more = digits_of rs in if is_decimal r then r ∷ more else []

unfoldable pub behind_digits : List ℕ → List ℕ
behind_digits [] = []
behind_digits (r ∷ rs) = let more = behind_digits rs in if is_decimal r then more else r ∷ rs

unfoldable pub behind_word : List ℕ → List ℕ
behind_word [] = []
behind_word (r ∷ rs) = let more = behind_word rs in if is_space r then r ∷ rs else more

abbrev pub and_scan : {A B : Type 0} → Option A → (A → Option B) → Option B
and_scan none f = none
and_scan (some a) f = f a

-- `%d` and `%s`: the text of the second is not used.
unfoldable pub scan_number : List ℕ → Option (ℕ × List ℕ)
unfolding skip_space digits_of behind_digits parse_uint
scan_number rs =
    and_scan (skip_space rs)
      λ t. and_scan (parse_uint 10 (digits_of t)) λ n. some (n, behind_digits t)

abbrev word_at : List ℕ → Option (List ℕ)
word_at [] = none
word_at (r ∷ rs) = some (behind_word (r ∷ rs))

unfoldable pub scan_word : List ℕ → Option (List ℕ)
unfolding skip_space behind_word
scan_word rs = and_scan (skip_space rs) word_at

-- The process and its parent, or an error.
unfoldable pub scan_stat : Bytes → Option (ℕ × ℕ)
unfolding runes_of scan_number gap scan_word
scan_stat text = and_scan (scan_number (runes_of (length text) text)) λ first.
    and_scan (gap first.1) λ a. and_scan (scan_word a) λ b. and_scan (gap b) λ c.
      and_scan (scan_word c)
        λ d. and_scan (gap d) λ e. and_scan (scan_number e) λ second. some (first.0, second.0)
