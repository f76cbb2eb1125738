-- ===== src/Prelude/Sets.antt =====
-- Membership in a list of numbers.
use Prim.Native.Nat.{ℕ}
use mathlib.Core.Path.{◌≡◌, refl}
use mathlib.Core.Logic.{◌⊎◌}
use mathlib.Core.Bool.{Bool, true, false, ◌||◌}
use mathlib.Core.List.{List, [], ◌∷◌, ◌++◌}
use native.Mathlib.Omega.{arith}
use watchmaker.Prelude.Tests.{◌==◌}

unfoldable pub has : ℕ → List ℕ → Bool
has a [] = false
has a (b ∷ bs) = a == b || has a bs

pub has-append : (a : ℕ) (xs ys : List ℕ) → has a (xs ++ ys) ≡ (has a xs || has a ys)
unfolding has
has-append a [] ys = refl
has-append a (x ∷ xs) ys = ground (arith, has-append a xs ys)

pub has_here : (a : ℕ) (bs : List ℕ) → has a (a ∷ bs) ≡ true
unfolding has
has_here a bs = ground arith

pub has_there : (a b : ℕ) (bs : List ℕ) → has a bs ≡ true → has a (b ∷ bs) ≡ true
unfolding has
has_there a b bs h = ground arith

pub has_cons_cases : (a b : ℕ) (bs : List ℕ) → has a (b ∷ bs) ≡ true → (a ≡ b) ⊎ (has a bs ≡ true)
unfolding has
has_cons_cases a b bs h = ground arith

pub has_append_cases :
    (a : ℕ) (xs ys : List ℕ) → has a (xs ++ ys) ≡ true → (has a xs ≡ true) ⊎ (has a ys ≡ true)
has_append_cases a xs ys h = ground (arith, has-append a xs ys)

pub has_left : (a : ℕ) (xs ys : List ℕ) → has a xs ≡ true → has a (xs ++ ys) ≡ true
has_left a xs ys h = ground (arith, has-append a xs ys)

pub has_right : (a : ℕ) (xs ys : List ℕ) → has a ys ≡ true → has a (xs ++ ys) ≡ true
has_right a xs ys h = ground (arith, has-append a xs ys)
