-- ===== src/DateParse/Runs.antt =====
-- Runs of the date loop over digits.
use watchmaker.Prelude.{
  ℕ, zero, suc, ◌+◌, ◌-◌, ◌≡◌, ◌≤◌, ◌<◌, ◌∙◌, refl, ap, [], ◌∷◌, true, false, ltb, arith, length,
  get_or, drop,
}
use watchmaker.Prelude.Int.{ℤ, pos}
use watchmaker.Prelude.Outcome.{ok}
use watchmaker.Go.Text.{Bytes}
use watchmaker.DateParse.States.{
  date_start, date_digit, date_year_dash, date_year_dash_dash, date_digit_slash, DateState,
}
use watchmaker.DateParse.Fields.{Parser}
use watchmaker.DateParse.Runes.{Tables, decode_rune, is_digit, is_letter}
use watchmaker.DateParse.Steps.{Found, next, leave, gives}
use watchmaker.DateParse.Loop.{Turn, behind, replies, gave, loop}
use watchmaker.DateParse.Date.Digits.{start_step, digit_step}
use watchmaker.DateParse.Date.Dashes.{year_dash_step, year_dash_dash_step}
use watchmaker.DateParse.Date.Slashes.{slash_step}
use watchmaker.DateParse.Date.Turn.{date_step, date_turn}

abbrev pub IsDigit : ℕ → Type 0
IsDigit c = (b'0' ≤ c) × (c ≤ b'9')

abbrev pub AllDigits : Bytes → Type 0
AllDigits [] = Unit
AllDigits (c ∷ s) = IsDigit c × AllDigits s

-- One turn that is known.
pub loop-next :
    (turn : Turn) (n : ℕ) (s : Bytes) (i : ℕ) (p q : Parser)
    → i < length s
    → turn s i p ≡ next (pos i) q
    → loop turn (suc n) s (pos i) p ≡ loop turn n s (pos (i + 1)) q
unfolding loop
loop-next turn n s i p q h e =
    let inside : ltb i (length s) ≡ true = ground arith in rw (inside, loop, e) refl

pub loop-leave :
    (turn : Turn) (n : ℕ) (s : Bytes) (i : ℕ) (p q : Parser) (j : ℤ)
    → i < length s
    → turn s i p ≡ leave j q
    → loop turn (suc n) s (pos i) p ≡ ok (behind s j q)
unfolding loop
loop-leave turn n s i p q j h e =
    let inside : ltb i (length s) ≡ true = ground arith in rw (inside, loop, e) refl

pub loop-gives :
    (turn : Turn) (n : ℕ) (s : Bytes) (i : ℕ) (p : Parser) (f : Found)
    → i < length s
    → turn s i p ≡ gives f
    → loop turn (suc n) s (pos i) p ≡ ok (replies (gave s f))
unfolding loop
loop-gives turn n s i p f h e =
    let inside : ltb i (length s) ≡ true = ground arith in rw (inside, loop, e) refl

pub loop-behind :
    (turn : Turn) (n : ℕ) (s : Bytes) (p : Parser)
    → loop turn (suc n) s (pos (length s)) p ≡ ok (behind s (pos (length s)) p)
unfolding loop
loop-behind turn n s p =
    let outside : ltb (length s) (length s) ≡ false = ground arith in rw (outside, loop) refl

-- An ASCII character is a byte.
decode-ascii :
    (s : Bytes) (i : ℕ)
    → i < length s
    → get_or s i 0 < 128
    → decode_rune (drop i s) ≡ (get_or s i 0, 1)
unfolding decode_rune
decode-ascii [] i h g = absurd (omega arith)
decode-ascii (c ∷ s) zero h g = ground arith
decode-ascii (c ∷ s) (suc i) h g = decode-ascii s i (omega arith) g

pub date_turn-ascii :
    (u : Tables) (s : Bytes) (i : ℕ) (p : Parser)
    → i < length s
    → get_or s i 0 < 128
    → date_turn u s i p ≡ date_step p.state_date u s i (get_or s i 0) p
unfolding date_turn
date_turn-ascii u s i p h g =
    ap (λ read. date_step p.state_date u s (i + (read.1 - 1)) read.0 p) (decode-ascii s i h g)
    ∙ ap (λ j. date_step p.state_date u s j (get_or s i 0) p) (omega arith)

-- The states that pass over a digit.
abbrev pub Passes : DateState → Type 0
Passes date_digit = Unit
Passes date_year_dash = Unit
Passes date_year_dash_dash = Unit
Passes date_digit_slash = Unit
Passes _ = ⊥

date_step-digit :
    (at : DateState) (u : Tables) (s : Bytes) (i c : ℕ) (p : Parser)
    → Passes at
    → IsDigit c
    → date_step at u s i c p ≡ next (pos i) p
unfolding date_step digit_step year_dash_step year_dash_dash_step slash_step is_letter
date_step-digit date_digit u s i c p h d = ground arith
date_step-digit date_year_dash u s i c p h d = ground arith
date_step-digit date_year_dash_dash u s i c p h d = ground arith
date_step-digit date_digit_slash u s i c p h d = ground arith
date_step-digit _ u s i c p h d = elim h [ ]

-- The digits of a text from an index on, so many of them.
abbrev pub DigitsAt : Bytes → ℕ → ℕ → Type 0
DigitsAt s i zero = Unit
DigitsAt s i (suc k) = (i < length s) × IsDigit (get_or s i 0) × DigitsAt s (i + 1) k

pub loop-digits :
    (u : Tables) (k n : ℕ) (s : Bytes) (i : ℕ) (p : Parser)
    → Passes p.state_date
    → DigitsAt s i k
    → loop (date_turn u) (k + n) s (pos i) p ≡ loop (date_turn u) n s (pos (i + k)) p
loop-digits u zero n s i p h d =
    ap (λ m. loop (date_turn u) m s (pos i) p) (omega arith)
    ∙ ap (λ j. loop (date_turn u) n s (pos j) p) (omega arith)
loop-digits u (suc k) n s i p h (inside, digit, more) =
    let turn =
      date_turn-ascii u s i p inside (omega (arith, digit))
      ∙ date_step-digit p.state_date u s i (get_or s i 0) p h digit in
    ap (λ m. loop (date_turn u) m s (pos i) p) (omega arith)
    ∙ loop-next (date_turn u) (k + n) s i p p inside turn
    ∙ loop-digits u k n s (i + 1) p h more
    ∙ ap (λ j. loop (date_turn u) n s (pos j) p) (omega arith)

-- The first character is a digit.
pub loop-start :
    (u : Tables) (n : ℕ) (s : Bytes) (p : Parser)
    → p.state_date ≡ date_start
    → 0 < length s
    → IsDigit (get_or s 0 0)
    → loop (date_turn u) (suc n) s (pos 0) p
      ≡ loop (date_turn u) n s (pos 1) (record p { state_date = date_digit })
unfolding is_digit start_step date_step
loop-start u n s p h l d =
    loop-next (date_turn u) n s 0 p (record p { state_date = date_digit }) l
      (date_turn-ascii u s 0 p l (omega arith) ∙ ground arith)
