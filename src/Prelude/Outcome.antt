-- ===== src/Prelude/Outcome.antt =====
-- What a Go call can do: return a value, return an error, or panic. `hung` stands for a loop or a
-- recursion that has used up the fuel of its model.
use mathlib.Core.Bool.{Bool, true, false}

pub data Outcome {ℓ} (E A : Type ℓ) : Type ℓ where
  ok : A → Outcome E A
  fail : E → Outcome E A
  panic : Outcome E A
  hung : Outcome E A

module _ {ℓ} {E A : Type ℓ} where
  abbrev pub is_ok : Outcome E A → Bool
  is_ok (ok a) = true
  is_ok (fail e) = false
  is_ok panic = false
  is_ok hung = false
