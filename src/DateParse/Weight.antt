-- ===== src/DateParse/Weight.antt =====
-- date_parse.go: what gets less with every call of `parseTime` in itself. A call cuts something out of
-- the text, or makes a period of a comma, so a comma weighs twice.
use watchmaker.Prelude.{
  ℕ, zero, suc, ◌+◌, ◌*◌, ◌≡◌, ◌≤◌, ◌<◌, [], ◌∷◌, ◌++◌, arith, ◌==◌, if◌then◌else◌, length, get_or,
  take, drop,
}
use watchmaker.Prelude.{set as set_elem}
use watchmaker.Go.Text.{Bytes, codes}

abbrev pub weight : Bytes → ℕ
weight [] = 0
weight (c ∷ s) = (if c == b',' then 2 else 1) + weight s

pub weight-le : (s : Bytes) → weight s ≤ 2 * length s
weight-le [] = omega arith
weight-le (c ∷ s) = ground (arith, weight-le s)

pub weight-drop : (n : ℕ) (s : Bytes) → weight (drop n s) ≤ weight s
weight-drop zero s = omega arith
weight-drop (suc n) [] = omega arith
weight-drop (suc n) (c ∷ s) = ground (arith, weight-drop n s)

pub weight-cut :
    (n m : ℕ) (s : Bytes) → n < m → n < length s → weight (take n s ++ drop m s) + 1 ≤ weight s
weight-cut n zero s h g = omega arith
weight-cut n (suc m) [] h g = omega arith
weight-cut zero (suc m) (c ∷ s) h g = ground (arith, weight-drop m s)
weight-cut (suc n) (suc m) (c ∷ s) h g = ground (arith, weight-cut n m s)

pub weight-comma :
    (s : Bytes) (i : ℕ)
    → i < length s
    → get_or s i 0 ≡ b','
    → weight (set_elem s i b'.') + 1 ≤ weight s
weight-comma [] i h g = omega arith
weight-comma (c ∷ s) zero h g = ground arith
weight-comma (c ∷ s) (suc i) h g = ground (arith, weight-comma s i)

pub weight-colon :
    (s : Bytes) (i : ℕ)
    → i < length s
    → get_or s i 0 ≡ b':'
    → weight (take i s ++ (codes "." ++ drop (i + 1) s)) ≡ weight s
weight-colon [] i h g = omega arith
weight-colon (c ∷ s) zero h g = ground arith
weight-colon (c ∷ s) (suc i) h g = ground (arith, weight-colon s i)

pub length-colon :
    (s : Bytes) (i : ℕ)
    → i < length s
    → length (take i s ++ (codes "." ++ drop (i + 1) s)) ≡ length s
length-colon [] i h = omega arith
length-colon (c ∷ s) zero h = ground arith
length-colon (c ∷ s) (suc i) h = ground (arith, length-colon s i)

pub length-le : (s : Bytes) → length s ≤ weight s
length-le [] = omega arith
length-le (c ∷ s) = ground (arith, length-le s)
