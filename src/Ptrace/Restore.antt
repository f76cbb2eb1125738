-- ===== src/Ptrace/Restore.antt =====
-- `Protect` and `Restore`: a system call leaves the registers and the code as they were.
use watchmaker.Prelude.{
  ℕ, ◌≤◌, ◌≡◌, refl, sym, ap, ◌∙◌, List, ◌++◌, arith, length, take, drop, take-append, subst,
}
use watchmaker.Prelude.Outcome.{ok, fail, panic, hung}
use watchmaker.Prelude.State.{Ran, pure, and_then, ◌>>◌}
use watchmaker.Prelude.Yields.{Yields, on_ok, on_fail, on_panic, on_hung, passed_on, bind}
use watchmaker.Go.Text.{Bytes}
use watchmaker.Errors.{Error, wrapped}
use watchmaker.Kernel.{Arch, amd64, arm64, Regs, Kernel, overlay, set_general}
use watchmaker.Kernel.Laws.{patch, slice, View, Laws}
use watchmaker.Kernel.Laws.Patches.{length-slice, slice-patch_of_eq}
use watchmaker.Ptrace.Program.{
  TracedProgram, Session, session, P, protect, restore, step, wait_for, instr_size,
}
use watchmaker.Ptrace.Syscall.{syscall, load_arguments, number_register, syscall_code}

-- A call of the operating system: what its outcome says is known behind it.
pub called :
    {W A : Type 0} {Q : A → Session W → Type 0} (r : Ran Error W A) (p : TracedProgram)
    → ((a : A) → r.0 ≡ ok a → Q a (session r.1 p))
    → Yields Q (r.0, session r.1 p)
called (ok a, w) p h = on_ok (h a refl)
called (fail e, w) p h = on_fail
called (panic, w) p h = on_panic
called (hung, w) p h = on_hung

pub call_then :
    {W A B : Type 0} {Q : B → Session W → Type 0} (r : Ran Error W A) (p : TracedProgram)
    (k : A → P W B)
    → ((a : A) → r.0 ≡ ok a → Yields Q (k a (session r.1 p)))
    → Yields Q (and_then (r.0, session r.1 p) k)
call_then (ok a, w) p k h = h a refl
call_then (fail e, w) p k h = on_fail
call_then (panic, w) p k h = on_panic
call_then (hung, w) p k h = on_hung

-- A buffer that is filled by as many bytes holds those.
pub overlay-of_eq :
    (buffer bytes : Bytes) → length bytes ≡ length buffer → overlay buffer bytes ≡ bytes
overlay-of_eq buffer bytes h =
    ap (λ n. take n (bytes ++ drop (length bytes) buffer)) (sym h) ∙ take-append bytes _

-- What `Protect` has saved when it succeeds, with the memory as it was.
pub record Protected {W : Type 0} (v : View W) (w : W) (p : TracedProgram) (t : Session W)
    : Type 0 where
  pub same_pid : t.program.pid ≡ p.pid
  pub saved_regs : t.program.backup_regs ≡ v.regs w
  pub saved_code : t.program.backup_code ≡ slice (v.memory w) (v.regs w).ip (length p.backup_code)
  pub same_memory : v.memory t.world ≡ v.memory w

-- `Restore` puts the registers and the code back, and touches nothing else.
record Restored {W : Type 0} (v : View W) (w : W) (p : TracedProgram) (t : Session W) : Type 0 where
  same_program : t.program ≡ p
  regs : v.regs t.world ≡ p.backup_regs
  memory : v.memory t.world ≡ patch (v.memory w) p.backup_regs.ip p.backup_code

module _ {W : Type 0} {k : Kernel W} (p : TracedProgram) {v : View W} (laws : Laws k p.pid v) where
  protect-Protected : (w : W) → Yields (λ _. Protected v w p) (protect k (session w p))
  unfolding protect
  protect-Protected w = call_then (k.get_regs p.pid w) p _ λ regs e.
      let w1 = (k.get_regs p.pid w).1 in
      call_then (k.peek_data p.pid regs.ip (length p.backup_code) w1)
        (record p { backup_regs = regs }) _
        λ code e'. on_ok (record {
          same_pid = refl;
          saved_regs = laws.get_regs w regs e;
          saved_code = saved w regs code e e';
          same_memory =
              (laws.peek_keeps regs.ip (length p.backup_code)).memory w1
              ∙ laws.get_regs_keeps.memory w;
        })
    where
      saved :
          (w : W) (regs : Regs) (code : Bytes)
          → (k.get_regs p.pid w).0 ≡ ok regs
          → (k.peek_data p.pid regs.ip (length p.backup_code) (k.get_regs p.pid w).1).0 ≡ ok code
          → overlay p.backup_code code ≡ slice (v.memory w) (v.regs w).ip (length p.backup_code)
      saved w regs code e e' =
          let w1 = (k.get_regs p.pid w).1 in
          let n = length p.backup_code in
          let read = laws.peek w1 regs.ip n code e' in
          overlay-of_eq p.backup_code code (ap length read ∙ length-slice (v.memory w1) regs.ip n)
          ∙ read
          ∙ rw (laws.get_regs_keeps.memory w, laws.get_regs w regs e)

  restore-Restored :
      (w : W) → length p.backup_code ≤ 8 → Yields (λ _. Restored v w p) (restore k (session w p))
  unfolding restore
  restore-Restored w small = call_then (k.set_regs p.pid p.backup_regs w) p _ λ _ e.
      let w1 = (k.set_regs p.pid p.backup_regs w).1 in
      called (k.poke_data p.pid p.backup_regs.ip p.backup_code w1) p λ _ e'. record {
        same_program = refl;
        regs = laws.poke_keeps w1 p.backup_regs.ip p.backup_code ∙ laws.set_regs w p.backup_regs e;
        memory =
            laws.poke w1 p.backup_regs.ip p.backup_code small e'
            ∙ rw (laws.set_regs_keeps w p.backup_regs);
      }

step-program :
    {W : Type 0} (k : Kernel W) (w : W) (p : TracedProgram)
    → Yields (λ _ t. t.program ≡ p) (step k (session w p))
unfolding step
step-program k w p =
    call_then (k.single_step p.pid w) p _
      λ _ _. called (wait_for k p.pid (k.single_step p.pid w).1) p λ _ _. refl

-- What a system call preserves: the registers, the code at the instruction pointer, the program's
-- pid, and the room for the next backup.
pub record Undisturbed {W : Type 0} (v : View W) (arch : Arch) (w : W) (p : TracedProgram)
    (t : Session W) : Type 0 where
  pub regs : v.regs t.world ≡ v.regs w
  pub code :
      slice (v.memory t.world) (v.regs w).ip (instr_size arch)
      ≡ slice (v.memory w) (v.regs w).ip (instr_size arch)
  pub same_pid : t.program.pid ≡ p.pid
  pub room : length t.program.backup_code ≡ instr_size arch

instr_size-le : (arch : Arch) → instr_size arch ≤ 8
instr_size-le amd64 = omega arith
instr_size-le arm64 = omega arith

module _ {W : Type 0} {k : Kernel W} (arch : Arch) (p : TracedProgram) {v : View W}
    (laws : Laws k p.pid v) where
  Undisturbed-Restored :
      (w : W) (s t : Session W) (w' : W)
      → Protected v w p s
      → Restored v w' s.program t
      → length p.backup_code ≡ instr_size arch
      → Undisturbed v arch w p t
  Undisturbed-Restored w s t w' saved back room =
      let code = slice (v.memory w) (v.regs w).ip (instr_size arch) in
      let size = length-slice (v.memory w) (v.regs w).ip (instr_size arch) in
      let stored : s.program.backup_code ≡ code = saved.saved_code ∙ rw room in
      record {
        regs = back.regs ∙ saved.saved_regs;
        code =
            rw (back.memory, saved.saved_regs, stored)
              (slice-patch_of_eq (v.memory w') (v.regs w).ip code (instr_size arch) size);
        same_pid = rw back.same_program saved.same_pid;
        room = rw (back.same_program, stored) size;
      }

  -- The end of a system call, from any state that has the program's backups.
  last_part :
      (w : W) (s u : Session W) (result : ℕ)
      → Protected v w p s
      → u.program ≡ s.program
      → length p.backup_code ≡ instr_size arch
      → Yields (λ _. Undisturbed v arch w p) ((restore k >> pure result) u)
  last_part w s u result saved same room =
      bind (restore-Restored u.program (subst (λ n. Laws k n v) there laws) u.world small)
        λ _ t back. on_ok (
          Undisturbed-Restored w s t u.world saved (subst (λ q. Restored v u.world q t) same back)
            room)
    where
      there : p.pid ≡ u.program.pid
      there = sym (ap (λ q. q.pid) same ∙ saved.same_pid)

      small : length u.program.backup_code ≤ 8
      small = omega (
        arith,
        ap (λ q. length q.backup_code) same,
        ap length saved.saved_code,
        length-slice (v.memory w) (v.regs w).ip (length p.backup_code),
        room,
        instr_size-le arch,
      )

  -- If `syscall` returns a result then, whatever the system call did to the process, the registers
  -- are as they were before, and so is the code at the instruction pointer as far as the system
  -- call's instruction covers it; the program has the same pid and room for the next backup. The
  -- condition is that there was room for this one.
  pub syscall-Undisturbed :
      (w : W) (number : ℕ) (args : List ℕ)
      → length p.backup_code ≡ instr_size arch
      → Yields (λ _. Undisturbed v arch w p) (syscall k arch number args (session w p))
  unfolding syscall
  syscall-Undisturbed w number args room = bind (protect-Protected p laws w) λ _ s saved.
      let q = s.program in
      call_then (k.get_regs q.pid s.world) q _ λ regs _.
        let w1 = (k.get_regs q.pid s.world).1 in
        call_then (load_arguments arch (set_general regs (number_register arch) number) 0 args, w1)
          q _
          λ loaded _.
            let w2 = (k.set_regs q.pid loaded w1).1 in
            call_then (k.set_regs q.pid loaded w1) q _ λ _ _.
              bind
                (passed_on wrapped (
                  called {Q = λ _ u. u.program ≡ q}
                    (k.poke_data q.pid q.backup_regs.ip (syscall_code arch) w2) q λ _ _. refl))
                λ _ u same. bind (step-program k u.world u.program) λ _ u' same'.
                  call_then (k.get_regs q.pid u'.world) u'.program _
                    λ after _. last_part w s (session _ u'.program) _ saved (same' ∙ same) room
