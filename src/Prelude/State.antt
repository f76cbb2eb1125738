-- ===== src/Prelude/State.antt =====
-- Calls that change a state: an outcome, with the state that is left also behind an error or a
-- panic.
use watchmaker.Prelude.Outcome.{Outcome, ok, fail, panic, hung}

abbrev pub Ran : Type 0 → Type 0 → Type 0 → Type 0
Ran E S A = Outcome E A × S

abbrev pub M : Type 0 → Type 0 → Type 0 → Type 0
M E S A = S → Ran E S A

module _ {E S A : Type 0} where
  abbrev pub pure : A → M E S A
  pure a s = (ok a, s)

  abbrev pub raise : E → M E S A
  raise e s = (fail e, s)

  abbrev pub crash : M E S A
  crash s = (panic, s)

module _ {E S A B : Type 0} where
  -- The rest of a computation, behind one that has run.
  abbrev pub and_then : Ran E S A → (A → M E S B) → Ran E S B
  and_then (ok a, s) k = k a s
  and_then (fail e, s) k = (fail e, s)
  and_then (panic, s) k = (panic, s)
  and_then (hung, s) k = (hung, s)

  infixl 5 ◌>>=◌
  abbrev pub ◌>>=◌ : M E S A → (A → M E S B) → M E S B
  ◌>>=◌ m k s = and_then (m s) k

module _ {E S B : Type 0} where
  infixl 5 ◌>>◌
  abbrev pub ◌>>◌ : M E S (Unit {0}) → M E S B → M E S B
  m >> k = m >>= λ _. k

module _ {E S A : Type 0} where
  abbrev pub after_error : Ran E S A → (E → M E S A) → Ran E S A
  after_error (ok a, s) h = (ok a, s)
  after_error (fail e, s) h = h e s
  after_error (panic, s) h = (panic, s)
  after_error (hung, s) h = (hung, s)

  -- `if err != nil { … }` behind a call: what the handler returns stands for the call.
  abbrev pub on_error : M E S A → (E → M E S A) → M E S A
  on_error m h s = after_error (m s) h

  -- A deferred call, whose own result is dropped: it runs on every outcome.
  abbrev pub deferred : {B : Type 0} → M E S A → M E S B → M E S A
  deferred m d s = let (r, t) = m s in (r, (d t).1)

-- A call on a part of the state.
module _ {E S T A : Type 0} where
  abbrev pub zoom : (S → T) → (S → T → S) → M E T A → M E S A
  zoom get put m s = let (r, t) = m (get s) in (r, put s t)
