-- ===== src/Offset/Decimal.antt =====
-- Decimal numbers, and that `strconv.Atoi` reads them back.
use native.Mathlib.Nat.{pow-suc}
use watchmaker.Prelude.{
  ℕ, zero, suc, ◌+◌, ◌*◌, ◌/◌, ◌%◌, ◌^◌, ◌<◌, ◌≤◌, ◌≡◌, ◌≢◌, ◌==◌, refl, ap, ◌∙◌, [], ◌∷◌, ◌++◌,
  Bool, true, false, none, some, arith, Option-cases, inl, inr,
}
use watchmaker.Prelude.Int.{ℤ, pos, sub_ℕ}
use watchmaker.Go.Text.{Bytes, Free}
use watchmaker.Go.Strconv.{digit, shift_in, parse_digits, parse_uint, with_sign, atoi}
use watchmaker.Go.Words.{two_63, two_64}
use watchmaker.Maps.Hex.{Free-append}

-- `w` decimal digits of `n`.
abbrev pub decimal : ℕ → ℕ → Bytes
decimal zero n = []
decimal (suc w) n = decimal w (n / 10) ++ (b'0' + n % 10) ∷ []

pub Free-decimal : (sep w n : ℕ) → sep < b'0' → Free sep (decimal w n)
Free-decimal sep zero n h = tt
Free-decimal sep (suc w) n h =
    Free-append sep _ _ (Free-decimal sep w (n / 10) h) (ground arith, tt)

parse_digits-snoc :
    (s : Bytes) (n c : ℕ)
    → parse_digits 10 n (s ++ c ∷ [])
      ≡ elim (parse_digits 10 n s) [ none ↦ none | some m ↦ parse_digits 10 m (c ∷ []) ]
unfolding parse_digits
parse_digits-snoc [] n c = refl
parse_digits-snoc (x ∷ s) n c = elim (Option-cases (shift_in 10 n (digit x))) [
  | inl e ↦ ground arith
  | inr (m, e) ↦ ground (arith, parse_digits-snoc s m c)
]

digit-decimal : (d : ℕ) → d < 10 → digit (b'0' + d) ≡ some d
unfolding digit
digit-decimal d h = ground arith

parse_digits-one :
    (m d : ℕ)
    → d < 10
    → m * 10 + d < two_64
    → parse_digits 10 m ((b'0' + d) ∷ []) ≡ some (m * 10 + d)
unfolding parse_digits shift_in
parse_digits-one m d h fits = ground (arith, digit-decimal d h)

parse_digits-decimal :
    (w n : ℕ) → n < 10 ^ w → n < two_64 → parse_digits 10 0 (decimal w n) ≡ some n
parse_digits-decimal zero n h fits = unfold parse_digits in ground arith
parse_digits-decimal (suc w) n h fits =
    parse_digits-snoc (decimal w (n / 10)) 0 (b'0' + n % 10)
    ∙ rw (parse_digits-decimal w (n / 10) (omega (arith, pow-suc 10 w)) (omega arith))
        (parse_digits-one (n / 10) (n % 10) (omega arith) (omega arith) ∙ ap some (omega arith))

parse_uint-concat :
    (s : Bytes) (c : ℕ) → parse_uint 10 (s ++ c ∷ []) ≡ parse_digits 10 0 (s ++ c ∷ [])
unfolding parse_uint
parse_uint-concat [] c = refl
parse_uint-concat (x ∷ s) c = refl

pub parse_uint-decimal :
    (w n : ℕ) → 0 < w → n < 10 ^ w → n < two_64 → parse_uint 10 (decimal w n) ≡ some n
parse_uint-decimal zero n p h fits = absurd (omega arith)
parse_uint-decimal (suc w) n p h fits =
    parse_uint-concat (decimal w (n / 10)) _ ∙ parse_digits-decimal (suc w) n h fits

-- Behind the digits, a byte that is no digit of base 10.
pub parse_uint-unit :
    (w n c d : ℕ)
    → digit c ≡ some d
    → 10 ≤ d
    → n < 10 ^ w
    → n < two_64
    → parse_uint 10 (decimal w n ++ c ∷ []) ≡ none
unfolding parse_digits shift_in
parse_uint-unit w n c d e large h fits =
    parse_uint-concat (decimal w n) c
    ∙ parse_digits-snoc (decimal w n) 0 c
    ∙ rw (parse_digits-decimal w n h fits) (ground arith)

-- A sign, which may be left out.
pub data Sign : Type 0 where
  plus minus bare : Sign

abbrev pub negates : Sign → Bool
negates plus = false
negates minus = true
negates bare = false

abbrev pub signed : Sign → Bytes → Bytes
signed plus s = b'+' ∷ s
signed minus s = b'-' ∷ s
signed bare s = s

abbrev pub value : Sign → ℕ → ℤ
value plus n = pos n
value minus n = sub_ℕ 0 n
value bare n = pos n

test_false : (a b : ℕ) → a ≢ b → (a == b) ≡ false
test_false a b h = ground arith

atoi-plain : (s : Bytes) → Free b'+' s → Free b'-' s → atoi s ≡ with_sign false (parse_uint 10 s)
unfolding atoi parse_uint with_sign
atoi-plain [] f g = refl
atoi-plain (c ∷ s) f g =
    let first : (c == b'+') ≡ false = test_false c b'+' f.0 in
    let second : (c == b'-') ≡ false = test_false c b'-' g.0 in rw (first, second, atoi) refl

pub atoi-signed :
    (sign : Sign) (s : Bytes)
    → Free b'+' s
    → Free b'-' s
    → atoi (signed sign s) ≡ with_sign (negates sign) (parse_uint 10 s)
unfolding atoi
atoi-signed plus s f g = refl
atoi-signed minus s f g = refl
atoi-signed bare s f g = atoi-plain s f g

pub with_sign-value :
    (sign : Sign) (n : ℕ) → n < two_63 → with_sign (negates sign) (some n) ≡ some (value sign n)
unfolding with_sign
with_sign-value plus n h = ground arith
with_sign-value minus n h = ground arith
with_sign-value bare n h = ground arith
