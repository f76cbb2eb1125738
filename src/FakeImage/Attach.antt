-- ===== src/FakeImage/Attach.antt =====
-- `AttachToProcess` and `Recover`: the methods that trace a process and detach from it.
use watchmaker.Prelude.{ℕ, List, [], ◌∷◌, none, some, ◌==◌, if◌then◌else◌, length}
use watchmaker.Prelude.State.{Ran, M, pure, raise, and_then, ◌>>=◌, ◌>>◌, on_error, deferred, zoom}
use watchmaker.Go.Text.{Bytes}
use watchmaker.Errors.{Error, variable_count}
use watchmaker.Elf.{ElfReader}
use watchmaker.Kernel.{Arch, Kernel}
use watchmaker.Maps.{Entry}
use watchmaker.Ptrace.Program.{TracedProgram, session, detach}
use watchmaker.Ptrace.Syscall.{lift}
use watchmaker.Ptrace.Trace.{trace}
use watchmaker.FakeImage.Image.{
  FakeImage, Scene, I, traced, image, save_origin, wrapping, logged, find_vdso_entry,
  set_var_uint64, find_injected_image, try_rewrite_fake_image, inject_fake_image,
}

-- The variables of a call, in the order in which the map is gone through.
abbrev pub Variables : Type 0
Variables = List (Bytes × ℕ)

-- The world and the image, outside of a trace.
pub record Target (W : Type 0) : Type 0 where
  pub world : W
  pub image : FakeImage

abbrev pub T : Type 0 → Type 0 → Type 0
T W A = M Error (Target W) A

module _ {W : Type 0} (k : Kernel W) (arch : Arch) where
  -- `Trace`, then the body, then the deferred `Detach`, whose error is only logged.
  abbrev pub scene : W → TracedProgram → FakeImage → Scene W
  scene w p it = record { session = session w p; image = it }

  abbrev pub end_trace : {A : Type 0} → Ran Error (Scene W) A → Ran Error (Target W) A
  end_trace (r, s) = (r, record { world = s.session.world; image = s.image })

  abbrev pub with_trace : {A : Type 0} → ℕ → I W A → T W A
  with_trace pid body s =
      and_then
        (zoom (λ (t : Target W). t.world) (λ t w. record t { world = w })
          (wrapping (trace k arch pid)) s)
        λ p t. end_trace (deferred body (traced (detach k)) (scene t.world p t.image))

  -- The loop over the variables.
  unfoldable pub set_variables : Entry → Variables → I W (Unit {0})
  set_variables e [] = pure tt
  set_variables e ((name, value) ∷ vars) = do
    it ← image
    wrapping (traced (set_var_uint64 k arch it.offset e name value))
    set_variables e vars

  -- The deferred function that undoes an injection behind an error.
  unfoldable pub roll_back : I W (Unit {0})
  roll_back = do logged (try_rewrite_fake_image k); save_origin none 0

  module _ (read_elf : ElfReader) where
    -- The body of `AttachToProcess` while the process is traced.
    unfoldable pub attach_body : Variables → I W (Unit {0})
    unfolding set_variables roll_back
    attach_body variables s =
        (do
          vdso ← wrapping (lift (find_vdso_entry s.session.program.entries))
          found ← wrapping (find_injected_image k arch (length variables))
          elim found [
            | some fake ↦ set_variables fake variables
            | none ↦ do
              fake ← wrapping (inject_fake_image k arch read_elf vdso)
              on_error (set_variables fake variables) (λ e. roll_back >> raise e)
          ])
          s

    -- `AttachToProcess`.
    unfoldable pub attach_to_process : ℕ → Variables → T W (Unit {0})
    unfolding attach_body
    attach_to_process pid variables s =
        if length variables == length s.image.offset
        then with_trace pid (attach_body variables) s
        else raise variable_count s

  -- The body of `Recover` while the process is traced; `count` is `len(vars)`.
  unfoldable pub recover_body : ℕ → I W (Unit {0})
  recover_body count = do
    found ← wrapping (find_injected_image k arch count)
    elim found [ none ↦ pure tt | some _ ↦ try_rewrite_fake_image k ]

  -- `Recover`.
  unfoldable pub recover : ℕ → Variables → T W (Unit {0})
  unfolding recover_body
  recover pid vars s = elim s.image.origin_func_code [
    | none ↦ pure tt s
    | some _ ↦ with_trace pid (recover_body (length vars)) s
  ]
