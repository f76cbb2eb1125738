-- ===== src/DateParse/Fraction.antt =====
-- `coalesceTime` and `trimExtra` do not panic where the positions are inside the layout.
use watchmaker.Prelude.{
  ℕ, zero, suc, ◌+◌, ◌≤◌, ◌≡◌, refl, ◌∙◌, true, false, inl, inr, Bool-cases, arith, ltb, ◌&&◌,
  length, take, length-take, length-set,
}
use watchmaker.Prelude.{set as set_elem}
use watchmaker.Prelude.Outcome.{Outcome, ok}
use watchmaker.Go.Text.{Bytes}
use watchmaker.Errors.{Error}
use watchmaker.DateParse.Fields.{Parser, is_above_zero, to_nat}
use watchmaker.DateParse.Time.{zero_digits, trim_extra}
use watchmaker.DateParse.Aligned.{Keeps}

pub zero_digits-ok :
    (n at : ℕ) (format : Bytes)
    → at + n ≤ length format
    → (digits : Bytes) × (zero_digits n at format ≡ ok digits) × (length digits ≡ length format)
unfolding zero_digits
zero_digits-ok zero at format h = (format, refl, refl)
zero_digits-ok (suc n) at format h =
    let inside : ltb at (length format) ≡ true = ground arith in
    let size = length-set format at b'0' in
    let (digits, returns, same) =
      zero_digits-ok n (at + 1) (set_elem format at b'0') (omega (arith, size)) in
    (digits, rw (inside, zero_digits) returns, same ∙ size)

-- A call that returns a parser with the text and the length of the layout kept.
abbrev pub Returns : Parser → Outcome Error Parser → Type 0
Returns p r = (q : Parser) × (r ≡ ok q) × Keeps p q

-- If the layout is as long as the text, then so are those that `trim_extra` returns, and it does
-- return.
pub trim_extra-IsAligned :
    (p : Parser)
    → length p.format ≡ length p.datestr
    → (q : Parser) × (trim_extra p ≡ ok q) × (length q.format ≡ length q.datestr)
unfolding trim_extra
trim_extra-IsAligned p same =
    let extra = to_nat p.extra in
    elim (Bool-cases (is_above_zero p.extra && ltb extra (length p.format))) [
      | inr h ↦ rw (h, trim_extra) (p, refl, same)
      | inl h ↦
          let fits : ltb (length p.datestr) extra ≡ false = ground arith in
          rw (h, fits, trim_extra)
            (
              record p { format = take extra p.format; datestr = take extra p.datestr },
              refl,
              omega (arith, length-take extra p.format, length-take extra p.datestr, same),
            )
    ]
