-- ===== src/DateParse/Aligned.antt =====
-- The layout and the text of a parser keep one length.
use watchmaker.Prelude.{
  ℕ, ◌+◌, ◌≡◌, refl, ◌∙◌, [], ◌∷◌, Bool, true, false, inl, inr, Bool-cases, ltb, ◌&&◌,
  if◌then◌else◌, length, length-set,
}
use watchmaker.Prelude.{set as set_elem}
use watchmaker.Prelude.Int.{ℤ, pos, negsuc, ◌-ℤ◌}
use watchmaker.Go.Text.{Bytes, codes}
use watchmaker.Go.Words.{wrap64}
use watchmaker.DateParse.Fields.{
  Parser, equals, is_above_zero, put_all, set, set_month, set_day, set_year, coalesce_year,
  coalesce_month, coalesce_day, coalesce_date,
}

abbrev pub IsAligned : Parser → Type 0
IsAligned p = length p.format ≡ length p.datestr

-- The text is kept, and the length of the layout, and where the part below a second stands.
pub record Keeps (p q : Parser) : Type 0 where
  pub text : q.datestr ≡ p.datestr
  pub size : length q.format ≡ length p.format
  pub start : q.msi ≡ p.msi
  pub count : q.mslen ≡ p.mslen

length-put_all :
    (format : Bytes) (at : ℕ) (val : Bytes) → length (put_all format at val) ≡ length format
unfolding put_all
length-put_all format at [] = refl
length-put_all format at (c ∷ cs) =
    length-put_all (set_elem format at c) (at + 1) cs ∙ length-set format at c

pub set-Keeps : (start : ℤ) (val : Bytes) (p : Parser) → Keeps p (set start val p)
unfolding set
set-Keeps (negsuc n) val p = record { text = refl; size = refl; start = refl; count = refl }
set-Keeps (pos start) val p = elim (Bool-cases (ltb (length p.format) (start + length val))) [
  | inl h ↦ rw (h, set) (record { text = refl; size = refl; start = refl; count = refl })
  | inr h ↦
      rw (h, set)
        (record {
          text = refl;
          size = length-put_all p.format start val;
          start = refl;
          count = refl;
        })
]

pub Keeps-same : (p : Parser) → Keeps p p
Keeps-same p = record { text = refl; size = refl; start = refl; count = refl }

pub Keeps-trans : {p q r : Parser} → Keeps p q → Keeps q r → Keeps p r
Keeps-trans h g = record {
  text = g.text ∙ h.text;
  size = g.size ∙ h.size;
  start = g.start ∙ h.start;
  count = g.count ∙ h.count;
}

pub Keeps-if : (b : Bool) (p q r : Parser) → Keeps p q → Keeps p r → Keeps p (if b then q else r)
Keeps-if true p q r h g = h
Keeps-if false p q r h g = g

set_month-Keeps : (p : Parser) → Keeps p (set_month p)
unfolding set_month
set_month-Keeps p =
    Keeps-if (equals p.molen 2) p _ _ (set-Keeps p.moi (codes "01") p)
      (Keeps-if (equals p.molen 1) p _ _ (set-Keeps p.moi (codes "1") p) (Keeps-same p))

set_day-Keeps : (p : Parser) → Keeps p (set_day p)
unfolding set_day
set_day-Keeps p =
    Keeps-if (equals p.daylen 2) p _ _ (set-Keeps p.dayi (codes "02") p)
      (Keeps-if (equals p.daylen 1) p _ _ (set-Keeps p.dayi (codes "2") p) (Keeps-same p))

set_year-Keeps : (p : Parser) → Keeps p (set_year p)
unfolding set_year
set_year-Keeps p =
    Keeps-if (equals p.yearlen 2) p _ _ (set-Keeps p.yeari (codes "06") p)
      (Keeps-if (equals p.yearlen 4) p _ _ (set-Keeps p.yeari (codes "2006") p) (Keeps-same p))

coalesce_year-Keeps : (end : ℤ) (p : Parser) → Keeps p (coalesce_year end p)
unfolding coalesce_year
coalesce_year-Keeps end p =
    let q = record p { yearlen = wrap64 (end -ℤ p.yeari) } in
    Keeps-if (is_above_zero p.yeari) p _ _
      (Keeps-trans
        (Keeps-if (equals p.yearlen 0) p q p
          (record { text = refl; size = refl; start = refl; count = refl }) (Keeps-same p))
        (set_year-Keeps (if equals p.yearlen 0 then q else p)))
      (Keeps-same p)

coalesce_month-Keeps : (end : ℤ) (p : Parser) → Keeps p (coalesce_month end p)
unfolding coalesce_month
coalesce_month-Keeps end p =
    let q = record p { molen = wrap64 (end -ℤ p.moi) } in
    Keeps-if (is_above_zero p.moi && equals p.molen 0) p _ _
      (Keeps-trans (record { text = refl; size = refl; start = refl; count = refl })
        (set_month-Keeps q))
      (Keeps-same p)

coalesce_day-Keeps : (end : ℤ) (p : Parser) → Keeps p (coalesce_day end p)
unfolding coalesce_day
coalesce_day-Keeps end p =
    let q = record p { daylen = wrap64 (end -ℤ p.dayi) } in
    Keeps-if (is_above_zero p.dayi && equals p.daylen 0) p _ _
      (Keeps-trans (record { text = refl; size = refl; start = refl; count = refl })
        (set_day-Keeps q))
      (Keeps-same p)

-- `coalesce_date` keeps the text, the length of the layout, and the position and the length of the
-- part below a second.
pub coalesce_date-Keeps : (end : ℤ) (p : Parser) → Keeps p (coalesce_date end p)
unfolding coalesce_date
coalesce_date-Keeps end p = Keeps-trans (coalesce_year-Keeps end p) (
    Keeps-trans (coalesce_month-Keeps end (coalesce_year end p))
      (coalesce_day-Keeps end (coalesce_month end (coalesce_year end p))))
