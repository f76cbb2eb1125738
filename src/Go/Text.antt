-- ===== src/Go/Text.antt =====
-- `strings`: texts are lists of bytes.
use Prim.Native.Char.{code}
use Prim.Native.String.{String}
use watchmaker.Prelude.{
  ℕ, ◌+◌, ◌≡◌, ◌≢◌, refl, sym, ◌∙◌, subst, Bool, true, false, ◌&&◌, ◌||◌, List, [], ◌∷◌, ◌++◌, map,
  arith, leb, ◌==◌, if◌then◌else◌,
}

abbrev pub Bytes : Type 0
Bytes = List ℕ

-- The bytes of an ASCII text.
abbrev pub codes : String → Bytes
codes String.[] = []
codes (String.◌∷◌ c s) = code c ∷ codes s

-- `a == b` on strings, and `bytes.Equal`.
unfoldable pub equal : Bytes → Bytes → Bool
equal [] [] = true
equal [] (y ∷ ys) = false
equal (x ∷ xs) [] = false
equal (x ∷ xs) (y ∷ ys) = x == y && equal xs ys

pub eq_of_equal : (xs ys : Bytes) → equal xs ys ≡ true → xs ≡ ys
unfolding equal
eq_of_equal [] [] h = refl
eq_of_equal [] (y ∷ ys) h = ground arith
eq_of_equal (x ∷ xs) [] h = ground arith
eq_of_equal (x ∷ xs) (y ∷ ys) h = ground (arith, eq_of_equal xs ys)

pub equal_refl : (xs : Bytes) → equal xs xs ≡ true
unfolding equal
equal_refl [] = refl
equal_refl (x ∷ xs) = ground (arith, equal_refl xs)

-- Two texts that equal a third.
pub equal_join :
    (k key name : Bytes) → equal k name ≡ true → equal key name ≡ true → equal k key ≡ true
equal_join k key name h g =
    subst (λ x. equal k x ≡ true) (eq_of_equal k name h ∙ sym (eq_of_equal key name g))
      (equal_refl k)

pub equal_fork : (key a b : Bytes) → equal key a ≡ true → equal key b ≡ true → equal a b ≡ true
equal_fork key a b h g = subst (λ x. equal x b ≡ true) (eq_of_equal key a h) g

-- `strings.HasPrefix`.
unfoldable pub has_prefix : Bytes → Bytes → Bool
has_prefix [] s = true
has_prefix (p ∷ ps) [] = false
has_prefix (p ∷ ps) (c ∷ s) = p == c && has_prefix ps s

-- `strings.Contains`.
unfoldable pub contains : Bytes → Bytes → Bool
unfolding has_prefix
contains part [] = has_prefix part []
contains part (c ∷ s) = has_prefix part (c ∷ s) || contains part s

abbrev pub onto_head : ℕ → List Bytes → List Bytes
onto_head c [] = (c ∷ []) ∷ []
onto_head c (w ∷ ws) = (c ∷ w) ∷ ws

-- `strings.Split` at a separator of one byte. There is always a first piece.
unfoldable pub split : ℕ → Bytes → List Bytes
split sep [] = [] ∷ []
split sep (c ∷ s) = let rest = split sep s in if c == sep then [] ∷ rest else onto_head c rest

-- `strings.ToLower`, on ASCII.
abbrev pub lower : ℕ → ℕ
lower c = if leb b'A' c && leb c b'Z' then c + 32 else c

unfoldable pub to_lower : Bytes → Bytes
to_lower = map lower

-- A piece holds no separator.
abbrev pub Free : ℕ → Bytes → Type 0
Free sep [] = Unit
Free sep (c ∷ s) = (c ≢ sep) × Free sep s

pub split-ne-nil : (sep : ℕ) (s : Bytes) → split sep s ≢ []
unfolding split
split-ne-nil sep [] = λ e. cc
split-ne-nil sep (c ∷ s) = λ e. ground arith

-- What stands before the first separator is the first piece.
pub split-append : (sep : ℕ) (w s : Bytes) → Free sep w → split sep (w ++ sep ∷ s) ≡ w ∷ split sep s
unfolding split
split-append sep [] s h = ground arith
split-append sep (c ∷ w) s h = ground (arith, split-append sep w s h.1)

pub split-Free : (sep : ℕ) (w : Bytes) → Free sep w → split sep w ≡ w ∷ []
unfolding split
split-Free sep [] h = refl
split-Free sep (c ∷ w) h = ground (arith, split-Free sep w h.1)
