-- ===== src/FakeImage/Again.antt =====
-- Attaching to a process that has the image already.
use watchmaker.Prelude.{
  ℕ, ◌+◌, ◌-◌, ◌*◌, ◌%◌, ◌≡◌, refl, sym, ap, ◌∙◌, subst, Bool, true, false, ◌&&◌, Option, none,
  some, Bool-cases, Option-cases, inl, inr, ltb, leb, ◌==◌, ◌||◌, if◌then◌else◌, length,
}
use watchmaker.Prelude.Outcome.{ok, fail, panic, hung}
use watchmaker.Prelude.State.{Ran, M, pure, and_then, after_error}
use watchmaker.Prelude.Yields.{Yields, mono}
use watchmaker.Go.Text.{Bytes}
use watchmaker.Go.Words.{two_64}
use watchmaker.Errors.{Error}
use watchmaker.Elf.{ElfReader}
use watchmaker.Kernel.{amd64, Kernel}
use watchmaker.Kernel.Laws.{View, Laws}
use watchmaker.Maps.{Entry}
use watchmaker.Ptrace.Program.{Session, session}
use watchmaker.Ptrace.Memory.{max_alloc, read_slice}
use watchmaker.FakeImage.Image.{
  FakeImage, Scene, find_vdso_entry, compare_content, find_injected_image,
}
use watchmaker.FakeImage.Attach.{Variables, set_variables, attach_body}
use watchmaker.FakeImage.Stored.{Distinct, IsApart, Stored}
use watchmaker.FakeImage.Extern.{IsWithin, Finished, set_variables-Finished}

module _ {E S A B : Type 0} where
  -- A continuation that keeps the state.
  then_keeps :
      (r : Ran E S A) (f : A → M E S B) → ((a : A) → (f a r.1).1 ≡ r.1) → (and_then r f).1 ≡ r.1
  then_keeps (ok a, s) f h = h a
  then_keeps (fail e, s) f h = refl
  then_keeps (panic, s) f h = refl
  then_keeps (hung, s) f h = refl

module _ {E S A : Type 0} where
  if_keeps :
      (b : Bool) (m n : M E S A) (s : S)
      → (m s).1 ≡ s
      → (n s).1 ≡ s
      → ((if b then m else n) s).1 ≡ s
  if_keeps true m n s h g = h
  if_keeps false m n s h g = g

-- Memory and program are kept.
record Same {W : Type 0} (v : View W) (s t : Session W) : Type 0 where
  memory : v.memory t.world ≡ v.memory s.world
  program : t.program ≡ s.program

module _ {W : Type 0} where
  search_state :
      (r : Ran Error (Scene W) Bytes) (compare : Bytes → M Error (Scene W) (Option Entry))
      → ((b : Bytes) (u : Scene W) → (compare b u).1 ≡ u)
      → (and_then
          (after_error (and_then r (λ b. pure (some b))) (λ _. pure {A = Option Bytes} none))
          (λ found. elim found [ none ↦ pure {A = Option Entry} none | some b ↦ compare b ])).1
        ≡ r.1
  search_state (ok b, u) compare h = h b u
  search_state (fail e, u) compare h = refl
  search_state (panic, u) compare h = refl
  search_state (hung, u) compare h = refl

module _ {W : Type 0} (k : Kernel W) where
  compare_content-state :
      (count : ℕ) (e : Entry) (it : FakeImage) (found : Bytes) (u : Scene W)
      → (compare_content k amd64 count e it found u).1 ≡ u
  unfolding compare_content
  compare_content-state count e it found u =
      if_keeps (ltb (length it.content) (count * 8)) _ _ u refl (
        if_keeps
          (leb (count * 8) (length it.content)
            && leb (length it.content - count * 8) (length found))
          _ _ u refl refl)

module _ {W : Type 0} {k : Kernel W} {v : View W} where
  read_slice-Same :
      (s : Session W) (laws : Laws k s.program.pid v) (addr size : ℕ)
      → Same v s (read_slice k addr size s).1
  unfolding read_slice
  read_slice-Same s laws addr size = elim (Bool-cases (size == 0 || ltb max_alloc size)) [
    | inl h ↦ rw (h, read_slice) (record { memory = refl; program = refl })
    | inr h ↦
        let r = k.vm_read s.program.pid addr size s.world in
        let end = then_keeps (r.0, session r.1 s.program) _ (λ _. refl) in
        rw (h, read_slice)
          (subst (Same v s) (sym end)
            (record { memory = (laws.vm_read_keeps addr size).memory s.world; program = refl }))
  ]

  -- The search for the image keeps memory, program and image.
  find_injected_image-Same :
      (s : Scene W) (laws : Laws k s.session.program.pid v) (count : ℕ)
      → Same v s.session (find_injected_image k amd64 count s).1.session
        × ((find_injected_image k amd64 count s).1.image ≡ s.image)
  unfolding find_injected_image
  find_injected_image-Same s laws count = elim (Option-cases s.image.fake_entry) [
    | inl h ↦ rw (h, find_injected_image) (record { memory = refl; program = refl }, refl)
    | inr (e, h) ↦
        let run =
          read_slice k e.start_address ((e.end_address + two_64 - e.start_address) % two_64)
            s.session in
        let it : FakeImage = record s.image { fake_entry = some e } in
        let end =
          search_state (run.0, record { session = run.1; image = it })
            (compare_content k amd64 count e s.image)
            (λ b u. compare_content-state k count e s.image b u) in
        rw (h, find_injected_image)
          (subst (λ (u : Scene W). Same v s.session u.session × (u.image ≡ it)) (sym end)
            (
              read_slice-Same s.session laws e.start_address
                  ((e.end_address + two_64 - e.start_address) % two_64),
              refl,
            ))
  ]

module _ {W : Type 0} (k : Kernel W) (read_elf : ElfReader) where
  attach_body-set_variables :
      (vars : Variables) (s t : Scene W) (vdso fake : Entry)
      → find_vdso_entry s.session.program.entries ≡ ok vdso
      → find_injected_image k amd64 (length vars) s ≡ (ok (some fake), t)
      → attach_body k amd64 read_elf vars s ≡ set_variables k amd64 fake vars t
  unfolding attach_body
  attach_body-set_variables vars s t vdso fake e f = rw (e, f, attach_body) refl

module _ {W : Type 0} {k : Kernel W} {v : View W} (read_elf : ElfReader) where
  -- If an amd64 image is found in the process, and the body of `AttachToProcess` succeeds, then it
  -- has written the variables into their rooms and nothing else: no function is redirected. The
  -- conditions are those of the loop over the variables, on the image's table and on the entry that
  -- is found, and that there is an entry of the vDSO.
  pub attach_body-Finished :
      (vars : Variables) (s t : Scene W) (vdso fake : Entry)
      → Laws k s.session.program.pid v
      → Distinct vars
      → IsApart s.image.offset
      → IsWithin fake.start_address s.image.offset
      → find_vdso_entry s.session.program.entries ≡ ok vdso
      → find_injected_image k amd64 (length vars) s ≡ (ok (some fake), t)
      → Yields (λ _. Finished v s fake vars) (attach_body k amd64 read_elf vars s)
  attach_body-Finished vars s t vdso fake laws distinct apart within e f =
      let (same, kept) =
        subst (λ (u : Scene W). Same v s.session u.session × (u.image ≡ s.image))
          (ap (λ (r : Ran Error (Scene W) (Option Entry)). r.1) f)
          (find_injected_image-Same s laws (length vars)) in
      subst (Yields (λ _. Finished v s fake vars))
        (sym (attach_body-set_variables k read_elf vars s t vdso fake e f))
        (mono
          (set_variables-Finished fake vars t (subst (λ p. Laws k p.pid v) (sym same.program) laws)
            distinct (subst (λ (it : FakeImage). IsApart it.offset) (sym kept) apart)
            (subst (λ (it : FakeImage). IsWithin fake.start_address it.offset) (sym kept) within))
          λ _ u g. record {
            memory =
                subst
                  (λ m. Stored fake.start_address s.image.offset vars m (v.memory u.session.world))
                  same.memory
                  (subst
                    (λ (it : FakeImage).
                      Stored fake.start_address it.offset vars (v.memory t.session.world)
                        (v.memory u.session.world))
                    kept g.memory);
            program = g.program ∙ same.program;
            image = g.image ∙ kept;
          })
