-- ===== src/Prelude/Yields.antt =====
-- Partial correctness of a call: what holds of its value and of the state when it succeeds. Its
-- rules follow a `do` block step by step.
use mathlib.Core.Path.{◌≡◌, refl, subst₂}
use watchmaker.Prelude.Outcome.{ok, fail, panic, hung}
use watchmaker.Prelude.Finishes.{Finishes}
use watchmaker.Prelude.State.{Ran, M, raise, and_then, after_error}

pub data Yields {E S A : Type 0} (Q : A → S → Type 0) : Ran E S A → Type 0 where
  on_ok : {a : A} {s : S} → Q a s → Yields Q (ok a, s)
  on_fail : {e : E} {s : S} → Yields Q (fail e, s)
  on_panic : {s : S} → Yields Q (panic, s)
  on_hung : {s : S} → Yields Q (hung, s)

module _ {E S A : Type 0} {Q : A → S → Type 0} where
  -- What a success says, once it is known to be one.
  pub yields_at : {r : Ran E S A} {a : A} {s : S} → Yields Q r → r ≡ (ok a, s) → Q a s
  yields_at {a} {s} (on_ok {a = x} {s = t} q) e =
      let value : x ≡ a = cc in let state : t ≡ s = cc in subst₂ Q value state q
  yields_at on_fail e = absurd (cc)
  yields_at on_panic e = absurd (cc)
  yields_at on_hung e = absurd (cc)

  -- An error that is passed on in another form.
  pub passed_on :
      (f : E → E) {r : Ran E S A} → Yields Q r → Yields Q (after_error r (λ e. raise (f e)))
  passed_on f (on_ok q) = on_ok q
  passed_on f on_fail = on_fail
  passed_on f on_panic = on_panic
  passed_on f on_hung = on_hung

  pub mono :
      {R : A → S → Type 0} {r : Ran E S A}
      → Yields Q r
      → ((a : A) (s : S) → Q a s → R a s)
      → Yields R r
  mono (on_ok q) weaken = on_ok (weaken _ _ q)
  mono on_fail weaken = on_fail
  mono on_panic weaken = on_panic
  mono on_hung weaken = on_hung

  pub bind :
      {B : Type 0} {R : B → S → Type 0} {r : Ran E S A} {k : A → M E S B}
      → Yields Q r
      → ((a : A) (s : S) → Q a s → Yields R (k a s))
      → Yields R (and_then r k)
  bind (on_ok q) next = next _ _ q
  bind on_fail next = on_fail
  bind on_panic next = on_panic
  bind on_hung next = on_hung

-- A call on a part of the state: what is known of the part is known of the whole.
module _ {E S T A : Type 0} {Q : A → T → Type 0} {R : A → S → Type 0} where
  pub zoomed :
      (put : T → S) {r : Ran E T A}
      → Yields Q r
      → ((a : A) (t : T) → Q a t → R a (put t))
      → Yields R (r.0, put r.1)
  zoomed put (on_ok q) widen = on_ok (widen _ _ q)
  zoomed put on_fail widen = on_fail
  zoomed put on_panic widen = on_panic
  zoomed put on_hung widen = on_hung

-- A call that finishes, and what its success says besides.
pub with_yields :
    {E S A : Type 0} {Q R : A → S → Type 0} {r : Ran E S A}
    → Finishes Q r
    → Yields R r
    → Finishes (λ a s. Q a s × R a s) r
with_yields (Finishes.on_ok q) h = Finishes.on_ok (q, yields_at h refl)
with_yields Finishes.on_fail h = Finishes.on_fail
with_yields Finishes.on_panic h = Finishes.on_panic
