-- ===== src/FakeImage/Stored.antt =====
-- What writing the variables of an amd64 image does to the memory.
use watchmaker.Prelude.{
  ℕ, ◌+◌, ◌≤◌, ◌≡◌, ◌⊎◌, inl, inr, refl, ap, ◌∙◌, subst, List, [], ◌∷◌, false, none, some,
  Bool-cases, arith,
}
use watchmaker.Go.Text.{Bytes, equal, eq_of_equal, equal_refl}
use watchmaker.Kernel.Laws.{Memory, patch, slice}
use watchmaker.Kernel.Laws.Patches.{slice-patch_of_eq, slice-patch_apart}
use watchmaker.Ptrace.Memory.{le_bytes}
use watchmaker.FakeImage.Image.{find_key}

-- No name comes twice.
abbrev pub Distinct : List (Bytes × ℕ) → Type 0
Distinct [] = Unit
Distinct ((name, value) ∷ vars) = (find_key name vars ≡ none) × Distinct vars

-- The rooms of two names do not meet.
abbrev pub IsApart : List (Bytes × ℕ) → Type 0
IsApart offset =
    (name other : Bytes) (at there : ℕ)
    → equal name other ≡ false
    → find_key name offset ≡ some at
    → find_key other offset ≡ some there
    → (at + 8 ≤ there) ⊎ (there + 8 ≤ at)

-- The `n` bytes from `a` on are behind or before the eight bytes at `b`.
abbrev pub Misses : ℕ → ℕ → ℕ → Type 0
Misses a n b = (a + n ≤ b) ⊎ (b + 8 ≤ a)

module _ (start : ℕ) (offset : List (Bytes × ℕ)) where
  -- From the memory `m`, the variables are written, and all bytes that miss their rooms are kept.
  pub record Stored (vars : List (Bytes × ℕ)) (m m' : Memory) : Type 0 where
    pub stored :
        (name : Bytes) (value at : ℕ)
        → find_key name vars ≡ some value
        → find_key name offset ≡ some at
        → slice m' (start + at) 8 ≡ le_bytes 8 value
    pub kept :
        (a n : ℕ)
        → ((name : Bytes) (value at : ℕ)
            → find_key name vars ≡ some value
            → find_key name offset ≡ some at
            → Misses a n (start + at))
        → slice m' a n ≡ slice m a n

  no_variable : {A : Type 0} (name : Bytes) (value : ℕ) → find_key name [] ≡ some value → A
  unfolding find_key
  no_variable name value h = absurd (cc)

  pub Stored-nil : (m : Memory) → Stored [] m m
  Stored-nil m = record {
    stored = λ name value at h g. no_variable name value h;
    kept = λ a n apart. refl;
  }

  module _ (name : Bytes) (value at : ℕ) (vars : List (Bytes × ℕ))
      (distinct : Distinct ((name, value) ∷ vars)) where
    differs : (other : Bytes) (v : ℕ) → find_key other vars ≡ some v → equal name other ≡ false
    differs other v h = elim (Bool-cases (equal name other)) [
      | inl e ↦
          let same : name ≡ other = eq_of_equal name other e in
          let clash : find_key name vars ≡ some v = ap (λ x. find_key x vars) same ∙ h in
          absurd (cc)
      | inr e ↦ e
    ]

    find_key-later :
        (other : Bytes) (v : ℕ)
        → find_key other vars ≡ some v
        → find_key other ((name, value) ∷ vars) ≡ some v
    unfolding find_key
    find_key-later other v h = rw (differs other v h) h

    find_key-first : find_key name ((name, value) ∷ vars) ≡ some value
    unfolding find_key
    find_key-first = rw (equal_refl name) refl

    find_key_cases :
        (other : Bytes) (v : ℕ)
        → find_key other ((name, value) ∷ vars) ≡ some v
        → ((name ≡ other) × (value ≡ v)) ⊎ (find_key other vars ≡ some v)
    unfolding find_key
    find_key_cases other v h = ground (arith, eq_of_equal name other)

    module _ (apart : IsApart offset) (here : find_key name offset ≡ some at) (m m' : Memory) where
      abbrev once : Memory
      once = patch m (start + at) (le_bytes 8 value)

      head_kept : Stored vars once m' → slice m' (start + at) 8 ≡ le_bytes 8 value
      head_kept rest =
          rest.kept (start + at) 8 (λ other v there h g.
            ground (arith, apart name other at there (differs other v h) here g))
          ∙ slice-patch_of_eq m (start + at) (le_bytes 8 value) 8 refl

      pub Stored-cons : Stored vars once m' → Stored ((name, value) ∷ vars) m m'
      Stored-cons rest = record {
        stored = λ other v there h g. elim (find_key_cases other v h) [
          | inl (same, e) ↦
              let place : at ≡ there = cc in
              subst (λ b. slice m' (start + b) 8 ≡ le_bytes 8 v) place
                (subst (λ u. slice m' (start + at) 8 ≡ le_bytes 8 u) e (head_kept rest))
          | inr later ↦ rest.stored other v there later g
        ];
        kept = λ a n misses.
            rest.kept a n (λ other v there h g. misses other v there (find_key-later other v h) g)
            ∙ slice-patch_apart m a n (start + at) (le_bytes 8 value)
                (misses name value at find_key-first here);
      }
