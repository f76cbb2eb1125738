-- ===== src/Prelude/Finishes.antt =====
-- Total correctness of a call, up to errors and panics: it does not run out of fuel, and what
-- holds of its value and of the state when it succeeds.
use mathlib.Core.Path.{◌≡◌, refl}
use watchmaker.Prelude.Outcome.{Outcome, ok, fail, panic, hung}
use watchmaker.Prelude.State.{Ran, M, and_then}

pub data Finishes {E S A : Type 0} (Q : A → S → Type 0) : Ran E S A → Type 0 where
  on_ok : {a : A} {s : S} → Q a s → Finishes Q (ok a, s)
  on_fail : {e : E} {s : S} → Finishes Q (fail e, s)
  on_panic : {s : S} → Finishes Q (panic, s)

-- The outcome of a call that is not out of fuel.
abbrev pub Ends : {E A : Type 0} → Outcome E A → Type 0
Ends (ok a) = Unit
Ends (fail e) = Unit
Ends panic = Unit
Ends hung = ⊥

module _ {E S A : Type 0} {Q : A → S → Type 0} where
  pub bind :
      {B : Type 0} {R : B → S → Type 0} {r : Ran E S A} {k : A → M E S B}
      → Finishes Q r
      → ((a : A) (s : S) → Q a s → Finishes R (k a s))
      → Finishes R (and_then r k)
  bind (on_ok q) next = next _ _ q
  bind on_fail next = on_fail
  bind on_panic next = on_panic

  pub mono :
      {R : A → S → Type 0} {r : Ran E S A}
      → Finishes Q r
      → ((a : A) (s : S) → Q a s → R a s)
      → Finishes R r
  mono (on_ok q) weaken = on_ok (weaken _ _ q)
  mono on_fail weaken = on_fail
  mono on_panic weaken = on_panic

  pub ends : {r : Ran E S A} → Finishes Q r → Ends r.0
  ends (on_ok q) = tt
  ends on_fail = tt
  ends on_panic = tt

-- A call of a part of the state that ends, with the rest behind it.
module _ {E S T A B : Type 0} {Q : B → S → Type 0} where
  pub ending_then :
      (r : Ran E T A) (put : T → S) (k : A → M E S B)
      → Ends r.0
      → ((a : A) (t : T) → r ≡ (ok a, t) → Finishes Q (k a (put t)))
      → Finishes Q (and_then (r.0, put r.1) k)
  ending_then (ok a, t) put k h next = next a t refl
  ending_then (fail e, t) put k h next = on_fail
  ending_then (panic, t) put k h next = on_panic
  ending_then (hung, t) put k h next = absurd h

-- A plain outcome, with the rest behind it.
module _ {E S A B : Type 0} {Q : B → S → Type 0} where
  pub outcome_then :
      (o : Outcome E A) (s : S) (k : A → M E S B)
      → Ends o
      → ((a : A) → o ≡ ok a → Finishes Q (k a s))
      → Finishes Q (and_then (o, s) k)
  outcome_then (ok a) s k h next = next a refl
  outcome_then (fail e) s k h next = on_fail
  outcome_then panic s k h next = on_panic
  outcome_then hung s k h next = absurd h
