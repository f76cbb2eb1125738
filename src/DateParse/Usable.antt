-- ===== src/DateParse/Usable.antt =====
-- The parsers on which `parse` does not panic.
use watchmaker.Prelude.{
  ◌≡◌, ◌≤◌, ◌⊎◌, inl, inr, refl, [], Bool-cases, ltb, ◌&&◌, arith, length, Option, none, some, ap,
  false,
}
use watchmaker.Prelude.Int.{ℤ, pos}
use watchmaker.Prelude.Outcome.{Outcome, ok, fail, panic, hung}
use watchmaker.Go.Text.{Bytes}
use watchmaker.Errors.{Error}
use watchmaker.DateParse.Fields.{Parser, equals, is_above_zero, to_nat}
use watchmaker.DateParse.Time.{Reader, bind, set_full_month, with_full_month, without_skip, parse}
use watchmaker.DateParse.Steps.{Found}
use watchmaker.DateParse.Aligned.{IsAligned}
use watchmaker.DateParse.Whole.{prepared}

-- Nothing is skipped and the layout has room for the name of the month, or there is no name and the
-- layout is as long as the text.
abbrev pub Usable : Parser → Type 0
Usable p =
    ((p.skip ≡ pos 0) × (length p.full_month ≤ length p.format))
    ⊎ ((p.full_month ≡ []) × IsAligned p)

abbrev pub UsableAt : Option Error → Option Parser → Type 0
UsableAt (some e) o = Unit
UsableAt none (some p) = Usable p
UsableAt none none = ⊥

-- Results with an error, or with a usable parser.
abbrev pub UsableFound : Found → Type 0
UsableFound f = UsableAt f.error f.parser

-- A call that neither panics nor runs out of fuel.
abbrev pub Settles : {A : Type 0} → Outcome Error A → Type 0
Settles (ok a) = Unit
Settles (fail e) = Unit
Settles panic = ⊥
Settles hung = ⊥

-- A reader that neither panics nor hangs, as `time.Parse` does not.
abbrev pub AlwaysSettles : Reader → Type 0
AlwaysSettles read = (loc : Option Bytes) (layout text : Bytes) → Settles (read loc layout text)

-- A call that returns a value with this property.
abbrev Gives : {A : Type 0} → (A → Type 0) → Outcome Error A → Type 0
Gives {A = A} P x = (a : A) × (x ≡ ok a) × P a

-- Nothing is skipped, or the layout is no longer than the text.
abbrev Skippable : Parser → Type 0
Skippable p = (p.skip ≡ pos 0) ⊎ IsAligned p

with_full_month-Gives : (p : Parser) → Usable p → Gives Skippable (with_full_month p)
unfolding with_full_month set_full_month
with_full_month-Gives p (inl h) = elim (Bool-cases (ltb 0 (length p.full_month))) [
  | inr e ↦ rw (e, with_full_month) (p, refl, inl h.0)
  | inl e ↦ elim (Bool-cases (equals p.moi 0)) [
    | inr g ↦ rw (e, g, with_full_month, set_full_month) (p, refl, inl h.0)
    | inl g ↦
        let fits : ltb (length p.format) (length p.full_month) ≡ false = ground arith in
        rw (e, with_full_month, g, fits, set_full_month) (_, refl, inl h.0)
  ]
]
with_full_month-Gives p (inr h) =
    let empty : ltb 0 (length p.full_month) ≡ false = ap (λ m. ltb 0 (length m)) h.0 in
    rw (empty, with_full_month) (p, refl, inr h.1)

without_skip-Gives : (p : Parser) → Skippable p → Gives (λ q. Unit) (without_skip p)
unfolding without_skip
without_skip-Gives p (inl h) =
    let none_there : is_above_zero p.skip ≡ false = ap is_above_zero h in
    rw (none_there, without_skip) (p, refl, tt)
without_skip-Gives p (inr h) =
    elim (Bool-cases (is_above_zero p.skip && ltb (to_nat p.skip) (length p.format))) [
      | inr e ↦ rw (e, without_skip) (p, refl, tt)
      | inl e ↦
          let fits : ltb (length p.datestr) (to_nat p.skip) ≡ false = ground arith in
          rw (e, without_skip, fits) (_, refl, tt)
    ]

bind-Gives :
    {A B : Type 0} {P : A → Type 0} {Q : B → Type 0} (x : Outcome Error A) (f : A → Outcome Error B)
    → Gives P x
    → ((a : A) → P a → Gives Q (f a))
    → Gives Q (bind x f)
bind-Gives x f (a, e, h) g = rw (e) (g a h)

-- Usable results where there is a parser: the two steps of `parse` return.
pub prepared-Gives : (p : Parser) → Usable p → Gives (λ q. Unit) (prepared p)
unfolding prepared
prepared-Gives p h = go p.t
  where
    go :
        (t : Option ℤ)
        → Gives
            (λ q. Unit)
            (elim t as (λ _. Outcome Error Parser) [
              | some k ↦ ok p
              | none ↦ bind (with_full_month p) without_skip
            ])
    go (some k) = (p, refl, tt)
    go none =
        bind-Gives (with_full_month p) without_skip (with_full_month-Gives p h) without_skip-Gives

bind-Settles :
    {A B : Type 0} {P : A → Type 0} (x : Outcome Error A) (f : A → Outcome Error B)
    → Gives P x
    → ((a : A) → P a → Settles (f a))
    → Settles (bind x f)
bind-Settles x f (a, e, h) g = rw (e) (g a h)

pub parse-Settles :
    (read : Reader) (p : Parser) → AlwaysSettles read → Usable p → Settles (parse read p)
unfolding parse
parse-Settles read p h usable = go p.t
  where
    go :
        (t : Option ℤ)
        → Settles (elim t as (λ _. Outcome Error ℤ) [
          | some k ↦ ok k
          | none ↦
              bind (with_full_month p) λ q. bind (without_skip q) λ r. read r.loc r.format r.datestr
        ])
    go (some k) = tt
    go none = bind-Settles (with_full_month p) _ (with_full_month-Gives p usable) (λ q e.
        bind-Settles (without_skip q) _ (without_skip-Gives q e)
          (λ r g. h r.loc r.format r.datestr))
