-- ===== src/Go/Strconv.antt =====
-- `strconv`: `none` stands for the error, of syntax or of range.
use watchmaker.Prelude.{
  ℕ, ◌+◌, ◌-◌, ◌*◌, ◌≡◌, refl, Bool, ◌&&◌, ◌||◌, false, [], ◌∷◌, Option, none, some, ltb, leb, ◌==◌,
  if◌then◌else◌,
}
use watchmaker.Prelude.Int.{ℤ, pos, negsuc, sub_ℕ}
use watchmaker.Go.Text.{Bytes, codes, lower}
use watchmaker.Go.Words.{two_63, two_64}

unfoldable pub digit : ℕ → Option ℕ
digit c =
    let d = lower c in
    if leb b'0' c && leb c b'9'
    then some (c - b'0')
    else if leb b'a' d && leb d b'z'
    then some (d - b'a' + 10)
    else none

-- One more digit: a digit of the base, and a value below 2 ^ 64.
unfoldable pub shift_in : ℕ → ℕ → Option ℕ → Option ℕ
shift_in base n none = none
shift_in base n (some d) =
    if leb base d then none else if leb two_64 (n * base + d) then none else some (n * base + d)

unfoldable pub parse_digits : ℕ → ℕ → Bytes → Option ℕ
unfolding digit shift_in
parse_digits base n [] = some n
parse_digits base n (c ∷ s) = elim (shift_in base n (digit c)) [
  | none ↦ none
  | some m ↦ parse_digits base m s
]

-- `strconv.ParseUint(s, base, 64)` for a base of 10 or 16.
unfoldable pub parse_uint : ℕ → Bytes → Option ℕ
unfolding parse_digits
parse_uint base [] = none
parse_uint base (c ∷ s) = parse_digits base 0 (c ∷ s)

-- The sign is put on: `cutoff` is 2 ^ 63.
unfoldable pub with_sign : Bool → Option ℕ → Option ℤ
with_sign neg none = none
with_sign neg (some n) =
    if neg
    then (if ltb two_63 n then none else some (sub_ℕ 0 n))
    else (if leb two_63 n then none else some (pos n))

-- `strconv.Atoi`, and `strconv.ParseInt(s, 10, 64)`.
unfoldable pub atoi : Bytes → Option ℤ
unfolding parse_uint with_sign
atoi [] = none
atoi (c ∷ s) =
    if c == b'+' || c == b'-'
    then with_sign (c == b'-') (parse_uint 10 s)
    else with_sign false (parse_uint 10 (c ∷ s))

decimal_and_hex :
    (parse_uint 10 (codes "1536") ≡ some 1536) × (parse_uint 16 (codes "7fFf") ≡ some 0x7fff)
unfolding parse_uint
decimal_and_hex = (refl, refl)

out_of_range :
    (parse_uint 10 (codes "18446744073709551616") ≡ none)
    × (atoi (codes "9223372036854775808") ≡ none)
    × (atoi (codes "-9223372036854775808") ≡ some (negsuc 9223372036854775807))
unfolding atoi parse_uint
out_of_range = (refl, refl, refl)
