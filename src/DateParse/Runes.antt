-- ===== src/DateParse/Runes.antt =====
-- `utf8.DecodeRuneInString`, and `unicode.IsDigit`, `unicode.IsLetter` and `strings.ToLower`. What
-- the last three say of a character that is not ASCII is in tables, which are a parameter.
use watchmaker.Prelude.{
  ℕ, ◌+◌, ◌-◌, ◌*◌, [], ◌∷◌, Bool, true, false, ◌&&◌, ◌||◌, ltb, leb, ◌==◌, if◌then◌else◌,
}
use watchmaker.Go.Text.{Bytes, to_lower}

pub record Tables : Type 0 where
  pub digits : ℕ → Bool
  pub letters : ℕ → Bool
  pub lowered : Bytes → Bytes

unfoldable pub is_digit : Tables → ℕ → Bool
is_digit u r = if ltb r 128 then leb b'0' r && leb r b'9' else u.digits r

unfoldable pub is_letter : Tables → ℕ → Bool
is_letter u r =
    if ltb r 128 then leb b'A' r && leb r b'Z' || leb b'a' r && leb r b'z' else u.letters r

unfoldable pub is_ascii : Bytes → Bool
is_ascii [] = true
is_ascii (c ∷ s) = ltb c 128 && is_ascii s

unfoldable pub lower_text : Tables → Bytes → Bytes
unfolding is_ascii to_lower
lower_text u s = if is_ascii s then to_lower s else u.lowered s

-- A character and the bytes that it takes. A byte that does not start a character is the
-- replacement character U+FFFD, and takes one byte.
abbrev pub bad_rune : ℕ × ℕ
bad_rune = (65533, 1)

abbrev pub in_range : ℕ → ℕ → ℕ → Bool
in_range lo hi c = leb lo c && leb c hi

-- The last two and the last three bytes, the first of them within bounds.
unfoldable pub three_bytes : ℕ → ℕ → ℕ → Bytes → ℕ × ℕ
three_bytes c lo hi (a ∷ b ∷ s) =
    if in_range lo hi a && in_range 128 191 b
    then ((c - 224) * 4096 + (a - 128) * 64 + (b - 128), 3)
    else bad_rune
three_bytes c lo hi _ = bad_rune

unfoldable pub four_bytes : ℕ → ℕ → ℕ → Bytes → ℕ × ℕ
four_bytes c lo hi (a ∷ b ∷ d ∷ s) =
    if in_range lo hi a && in_range 128 191 b && in_range 128 191 d
    then ((c - 240) * 262144 + (a - 128) * 4096 + (b - 128) * 64 + (d - 128), 4)
    else bad_rune
four_bytes c lo hi _ = bad_rune

unfoldable pub two_bytes : ℕ → Bytes → ℕ × ℕ
two_bytes c [] = bad_rune
two_bytes c (a ∷ s) = if in_range 128 191 a then ((c - 192) * 64 + (a - 128), 2) else bad_rune

unfoldable pub decode_rune : Bytes → ℕ × ℕ
unfolding two_bytes three_bytes four_bytes
decode_rune [] = (65533, 0)
decode_rune (c ∷ s) =
    if ltb c 128
    then (c, 1)
    else if in_range 194 223 c
    then two_bytes c s
    else if in_range 224 239 c
    then three_bytes c (if c == 224 then 160 else 128) (if c == 237 then 159 else 191) s
    else if in_range 240 244 c
    then four_bytes c (if c == 240 then 144 else 128) (if c == 244 then 143 else 191) s
    else bad_rune

-- A `case` of several characters.
abbrev pub one_of : ℕ → Bytes → Bool
one_of r [] = false
one_of r (c ∷ cs) = r == c || one_of r cs
