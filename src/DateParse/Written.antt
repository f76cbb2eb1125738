-- ===== src/DateParse/Written.antt =====
-- What `set` writes into the layout.
use watchmaker.Prelude.{
  ℕ, zero, suc, ◌+◌, ◌≤◌, ◌≡◌, refl, ap, ◌∙◌, [], ◌∷◌, ◌++◌, false, arith, ltb, length, take, drop,
}
use watchmaker.Prelude.{set as set_elem}
use watchmaker.Prelude.Int.{pos}
use watchmaker.Go.Text.{Bytes}
use watchmaker.DateParse.Fields.{Parser, put_all, set}

put_all-cons :
    (x : ℕ) (format : Bytes) (at : ℕ) (val : Bytes)
    → put_all (x ∷ format) (suc at) val ≡ x ∷ put_all format at val
unfolding put_all
put_all-cons x format at [] = refl
put_all-cons x format at (c ∷ cs) =
    ap (λ n. put_all (x ∷ set_elem format at c) n cs) (index at)
    ∙ put_all-cons x (set_elem format at c) (at + 1) cs
  where
    index : (n : ℕ) → suc n + 1 ≡ suc (n + 1)
    index n = omega arith

put_all-front :
    (format val : Bytes)
    → length val ≤ length format
    → put_all format 0 val ≡ val ++ drop (length val) format
unfolding put_all
put_all-front format [] h = refl
put_all-front [] (c ∷ cs) h = absurd (omega arith)
put_all-front (x ∷ format) (c ∷ cs) h =
    put_all-cons c format 0 cs ∙ ap (◌∷◌ c) (put_all-front format cs (omega arith))

put_all-pieces :
    (format : Bytes) (at : ℕ) (val : Bytes)
    → at + length val ≤ length format
    → put_all format at val ≡ take at format ++ (val ++ drop (at + length val) format)
put_all-pieces format zero val h =
    put_all-front format val (omega arith)
    ∙ ap (λ n. val ++ drop n format) (zero_first (length val))
  where
    zero_first : (n : ℕ) → n ≡ 0 + n
    zero_first n = omega arith
put_all-pieces [] (suc at) val h = absurd (omega arith)
put_all-pieces (x ∷ format) (suc at) val h =
    put_all-cons x format at val
    ∙ ap (◌∷◌ x) (put_all-pieces format at val (omega arith))
    ∙ ap (λ n. x ∷ (take at format ++ (val ++ drop n (x ∷ format)))) (index at (length val))
  where
    index : (n m : ℕ) → suc (n + m) ≡ suc n + m
    index n m = omega arith

-- Where the text fits into the layout behind the position, `set` writes it there and keeps the rest
-- of the layout.
pub set-pieces :
    (start : ℕ) (val : Bytes) (p : Parser)
    → start + length val ≤ length p.format
    → (set (pos start) val p).format
      ≡ take start p.format ++ (val ++ drop (start + length val) p.format)
unfolding set
set-pieces start val p room =
    let fits : ltb (length p.format) (start + length val) ≡ false = ground arith in
    rw (fits, set) (put_all-pieces p.format start val room)
