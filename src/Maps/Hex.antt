-- ===== src/Maps/Hex.antt =====
-- Hexadecimal numbers as the kernel prints them, and that `strconv.ParseUint` reads them back.
use native.Mathlib.Nat.{pow-suc}
use watchmaker.Prelude.{
  ℕ, zero, suc, ◌+◌, ◌-◌, ◌*◌, ◌/◌, ◌%◌, ◌^◌, ◌<◌, ◌≡◌, refl, ap, ◌∙◌, [], ◌∷◌, ◌++◌, none, some,
  arith, ltb, if◌then◌else◌, Option-cases, inl, inr,
}
use watchmaker.Go.Text.{Bytes, Free}
use watchmaker.Go.Strconv.{digit, shift_in, parse_digits, parse_uint}
use watchmaker.Go.Words.{two_64}

-- `w` hexadecimal digits of `n`, as the kernel prints them.
abbrev hex_digit : ℕ → ℕ
hex_digit d = if ltb d 10 then b'0' + d else b'a' + (d - 10)

abbrev pub hex : ℕ → ℕ → Bytes
hex zero n = []
hex (suc w) n = hex w (n / 16) ++ hex_digit (n % 16) ∷ []

digit-hex_digit : (d : ℕ) → d < 16 → digit (hex_digit d) ≡ some d
unfolding digit
digit-hex_digit d h = ground arith

parse_digits-snoc :
    (s : Bytes) (n c : ℕ)
    → parse_digits 16 n (s ++ c ∷ [])
      ≡ elim (parse_digits 16 n s) [ none ↦ none | some m ↦ parse_digits 16 m (c ∷ []) ]
unfolding parse_digits
parse_digits-snoc [] n c = refl
parse_digits-snoc (x ∷ s) n c = elim (Option-cases (shift_in 16 n (digit x))) [
  | inl e ↦ ground arith
  | inr (m, e) ↦ ground (arith, parse_digits-snoc s m c)
]

parse_digits-one :
    (m d : ℕ)
    → d < 16
    → m * 16 + d < two_64
    → parse_digits 16 m (hex_digit d ∷ []) ≡ some (m * 16 + d)
unfolding parse_digits shift_in
parse_digits-one m d h fits = ground (arith, digit-hex_digit d h)

parse_digits-hex : (w n : ℕ) → n < 16 ^ w → n < two_64 → parse_digits 16 0 (hex w n) ≡ some n
parse_digits-hex zero n h fits = unfold parse_digits in ground arith
parse_digits-hex (suc w) n h fits =
    parse_digits-snoc (hex w (n / 16)) 0 (hex_digit (n % 16))
    ∙ rw (parse_digits-hex w (n / 16) (omega (arith, pow-suc 16 w)) (omega arith))
        (parse_digits-one (n / 16) (n % 16) (omega arith) (omega arith) ∙ ap some (omega arith))

parse_uint-concat :
    (s : Bytes) (c : ℕ) → parse_uint 16 (s ++ c ∷ []) ≡ parse_digits 16 0 (s ++ c ∷ [])
unfolding parse_uint
parse_uint-concat [] c = refl
parse_uint-concat (x ∷ s) c = refl

-- Hexadecimal text of at least one digit is read back.
pub parse_uint-hex : (w n : ℕ) → 0 < w → n < 16 ^ w → n < two_64 → parse_uint 16 (hex w n) ≡ some n
parse_uint-hex zero n p h fits = absurd (omega arith)
parse_uint-hex (suc w) n p h fits =
    parse_uint-concat (hex w (n / 16)) _ ∙ parse_digits-hex (suc w) n h fits

pub Free-append : (sep : ℕ) (s t : Bytes) → Free sep s → Free sep t → Free sep (s ++ t)
Free-append sep [] t f g = g
Free-append sep (c ∷ s) t f g = (f.0, Free-append sep s t f.1 g)

pub Free-hex : (sep w n : ℕ) → sep < b'0' → Free sep (hex w n)
Free-hex sep zero n h = tt
Free-hex sep (suc w) n h = Free-append sep _ _ (Free-hex sep w (n / 16) h) (ground arith, tt)
