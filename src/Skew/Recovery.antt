-- ===== src/Skew/Recovery.antt =====
-- `Recover` of a skew: an error of the first image does not keep the second from being recovered.
use watchmaker.Prelude.{ℕ, ◌≡◌, refl}
use watchmaker.Prelude.Outcome.{Outcome, ok, fail, panic, hung}
use watchmaker.Prelude.State.{Ran, raise, ◌>>◌, on_error, and_then, after_error}
use watchmaker.Errors.{Error, both}
use watchmaker.Kernel.{Arch, Kernel}
use watchmaker.FakeImage.{recover}
use watchmaker.Skew.Inject.{
  Skewed, K, on_clock, on_day, clock_variables, time_variables, recover_all,
}

-- The first call returned a value or an error.
abbrev pub IsOver : {A : Type 0} → Outcome Error A → Type 0
IsOver (ok a) = Unit
IsOver (fail e) = Unit
IsOver panic = ⊥
IsOver hung = ⊥

module _ {W : Type 0} (k : Kernel W) (arch : Arch) (pid : ℕ) where
  abbrev pub first : Skewed W → Ran Error (Skewed W) (Unit {0})
  first s = on_clock (recover k arch pid (clock_variables s.skew.skew_config)) s

  -- With the variables of the state `s`.
  abbrev pub second : Skewed W → Skewed W → Ran Error (Skewed W) (Unit {0})
  second s = on_day (recover k arch pid (time_variables s.skew.skew_config))

  -- The result by those of the two calls.
  abbrev pub joined : Outcome Error (Unit {0}) → Outcome Error (Unit {0}) → Outcome Error (Unit {0})
  joined (ok _) b = b
  joined (fail e) (ok _) = fail e
  joined (fail e) (fail f) = fail (both e f)
  joined (fail e) panic = panic
  joined (fail e) hung = hung
  joined panic b = panic
  joined hung b = hung

  behind_second :
      (e : Error) (d : Ran Error (Skewed W) (Unit {0})) (rest : K W (Unit {0}))
      → and_then
          (and_then (after_error d (λ e2. raise (both e e2))) (λ _. raise {A = Unit {0}} e))
          (λ _. rest)
        ≡ (joined (fail e) d.0, d.1)
  behind_second e (ok _, t) rest = refl
  behind_second e (fail f, t) rest = refl
  behind_second e (panic, t) rest = refl
  behind_second e (hung, t) rest = refl

  behind_first :
      (s : Skewed W) (r : Ran Error (Skewed W) (Unit {0})) (day : K W (Unit {0}))
      → IsOver r.0
      → and_then
          (after_error r (λ e1. on_error day (λ e2. raise (both e1 e2)) >> raise e1))
          (λ _. day)
        ≡ (joined r.0 (day r.1).0, (day r.1).1)
  behind_first s (ok _, t) day h = refl
  behind_first s (fail e, t) day h = behind_second e (day t) day
  behind_first s (panic, t) day h = absurd h
  behind_first s (hung, t) day h = absurd h

  -- If the first image's recovery returns, with an error or without, then `recover_all` recovers
  -- the second image from the state that the first has left, ends in the state that this leaves,
  -- and returns the error of the one that failed, or both errors, or none.
  pub recover_all-joined :
      (s : Skewed W)
      → IsOver (first s).0
      → recover_all k arch pid s
        ≡ (joined (first s).0 (second s (first s).1).0, (second s (first s).1).1)
  unfolding recover_all
  recover_all-joined s h = behind_first s (first s) (second s) h
