-- ===== src/FakeImage/Extern.antt =====
-- The loop over the variables of an amd64 image.
use watchmaker.Prelude.{
  ℕ, ◌+◌, ◌%◌, ◌≤◌, ◌≡◌, inl, inr, refl, sym, ◌∙◌, subst, List, [], ◌∷◌, none, some, Option-cases,
  arith,
}
use watchmaker.Prelude.Yields.{Yields, on_ok, on_fail, mono, bind, zoomed, passed_on}
use watchmaker.Go.Text.{Bytes}
use watchmaker.Go.Words.{two_64}
use watchmaker.Errors.{wrapped}
use watchmaker.Kernel.{amd64, Kernel}
use watchmaker.Kernel.Laws.{patch, View, Laws}
use watchmaker.Maps.{Entry}
use watchmaker.Ptrace.Program.{Session}
use watchmaker.Ptrace.Memory.{le_bytes, write_slice, write_uint64}
use watchmaker.Ptrace.Restore.{called}
use watchmaker.FakeImage.Image.{Scene, find_key, write_var, set_var_uint64}
use watchmaker.FakeImage.Attach.{Variables, set_variables}
use watchmaker.FakeImage.Stored.{Distinct, IsApart, Stored, Stored-nil, Stored-cons}

-- The rooms of the variables lie below the end of the address space.
abbrev pub IsWithin : ℕ → List (Bytes × ℕ) → Type 0
IsWithin start offset =
    (name : Bytes) (at : ℕ) → find_key name offset ≡ some at → start + at + 8 ≤ two_64

-- One variable is written.
record Put {W : Type 0} (v : View W) (s : Session W) (addr value : ℕ) (t : Session W) : Type 0 where
  memory : v.memory t.world ≡ patch (v.memory s.world) addr (le_bytes 8 value)
  program : t.program ≡ s.program

module _ {W : Type 0} {k : Kernel W} {v : View W} where
  write_uint64-Put :
      (s : Session W) (laws : Laws k s.program.pid v) (addr value : ℕ)
      → Yields (λ _. Put v s addr value) (write_uint64 k addr value s)
  unfolding write_uint64 write_slice
  write_uint64-Put s laws addr value =
      called (k.vm_write s.program.pid addr (le_bytes 8 value) s.world) s.program
        λ _ e. record { memory = laws.vm_write s.world addr (le_bytes 8 value) e; program = refl }

  set_var-Put :
      (s : Session W) (laws : Laws k s.program.pid v) (offset : List (Bytes × ℕ)) (e : Entry)
      (name : Bytes) (value at : ℕ)
      → find_key name offset ≡ some at
      → e.start_address + at + 8 ≤ two_64
      → Yields
          (λ _. Put v s (e.start_address + at) value)
          (set_var_uint64 k amd64 offset e name value s)
  unfolding set_var_uint64 write_var
  set_var-Put s laws offset e name value at found fits =
      let place : (e.start_address + at) % two_64 ≡ e.start_address + at = omega arith in
      rw (found, place, set_var_uint64) (write_uint64-Put s laws (e.start_address + at) value)

module _ {W : Type 0} (k : Kernel W) where
  set_var-none :
      (s : Session W) (offset : List (Bytes × ℕ)) (e : Entry) (name : Bytes) (value : ℕ)
      → find_key name offset ≡ none
      → Yields (λ _ _. ⊥) (set_var_uint64 k amd64 offset e name value s)
  unfolding set_var_uint64
  set_var-none s offset e name value found = rw (found, set_var_uint64) on_fail

-- What the loop has done when it succeeds.
pub record Finished {W : Type 0} (v : View W) (s : Scene W) (e : Entry) (vars : Variables)
    (t : Scene W) : Type 0 where
  pub memory :
      Stored e.start_address s.image.offset vars
        (v.memory s.session.world)
        (v.memory t.session.world)
  pub program : t.session.program ≡ s.session.program
  pub image : t.image ≡ s.image

module _ {W : Type 0} {v : View W} (e : Entry) where
  Finished-cons :
      (name : Bytes) (value at : ℕ) (vars : Variables) (s u t : Scene W)
      → Distinct ((name, value) ∷ vars)
      → IsApart s.image.offset
      → find_key name s.image.offset ≡ some at
      → Put v s.session (e.start_address + at) value u.session
      → u.image ≡ s.image
      → Finished v u e vars t
      → Finished v s e ((name, value) ∷ vars) t
  Finished-cons name value at vars s u t distinct apart found put same rest = record {
    memory =
        Stored-cons e.start_address s.image.offset name value at vars distinct apart found
          (v.memory s.session.world) (v.memory t.session.world)
          (subst (λ m. Stored e.start_address s.image.offset vars m (v.memory t.session.world))
            put.memory
            (subst
              (λ it.
                Stored e.start_address it.offset vars (v.memory u.session.world)
                  (v.memory t.session.world))
              same rest.memory));
    program = rest.program ∙ put.program;
    image = rest.image ∙ same;
  }

module _ {W : Type 0} {k : Kernel W} {v : View W} (e : Entry) where
  -- If the loop over the variables of an amd64 image succeeds, then every variable's room in the
  -- entry holds its value in little-endian order, all bytes outside of the rooms are kept, and so
  -- are the program and the image. The conditions are that no name comes twice, that the rooms of
  -- the image's table do not meet, and that they lie below the end of the address space.
  pub set_variables-Finished :
      (vars : Variables) (s : Scene W)
      → Laws k s.session.program.pid v
      → Distinct vars
      → IsApart s.image.offset
      → IsWithin e.start_address s.image.offset
      → Yields (λ _. Finished v s e vars) (set_variables k amd64 e vars s)
  unfolding set_variables
  set_variables-Finished [] s laws distinct apart within = on_ok (record {
    memory = Stored-nil e.start_address s.image.offset (v.memory s.session.world);
    program = refl;
    image = refl;
  })
  set_variables-Finished ((name, value) ∷ vars) s laws distinct apart within =
      elim (Option-cases (find_key name s.image.offset)) [
        | inl missing ↦
            bind
              (passed_on wrapped (
                zoomed {R = λ _ _. ⊥} (λ t. record s { session = t })
                  (set_var-none k s.session s.image.offset e name value missing) (λ _ _ h. h)))
              λ _ _ h. absurd h
        | inr (at, found) ↦
            bind
              (passed_on wrapped (
                zoomed
                  {R = λ _ (u : Scene W).
                    Put v s.session (e.start_address + at) value u.session × (u.image ≡ s.image)}
                  (λ t. record s { session = t })
                  (set_var-Put s.session laws s.image.offset e name value at found
                    (within name at found))
                  (λ _ _ h. (h, refl))))
              λ _ u (put, same).
                mono
                  (set_variables-Finished vars u
                    (subst (λ p. Laws k p.pid v) (sym put.program) laws) distinct.1
                    (subst (λ it. IsApart it.offset) (sym same) apart)
                    (subst (λ it. IsWithin e.start_address it.offset) (sym same) within))
                  λ _ t g. Finished-cons e name value at vars s u t distinct apart found put same g
      ]
