-- ===== src/Ptrace/Tests.antt =====
-- The traced program on the toy kernel.
use watchmaker.Prelude.{
  ℕ, ◌≡◌, refl, sym, ap, ◌∙◌, [], ◌∷◌, false, arith, replicate, subst, ◌==◌, if◌then◌else◌,
}
use watchmaker.Prelude.State.{M}
use watchmaker.Errors.{Error}
use watchmaker.Ptrace.Trace.Stopped.{Phase, loose, seized, asked, stopped, Stops}
use watchmaker.Prelude.Outcome.{ok}
use watchmaker.Prelude.Yields.{Yields}
use watchmaker.Prelude.Finishes.{Finishes, Ends}
use watchmaker.Go.Text.{codes}
use watchmaker.Go.Words.{int64, uint64}
use watchmaker.Go.Strconv.{atoi, digit, parse_digits, shift_in}
use watchmaker.Kernel.{amd64, Kernel}
use watchmaker.Kernel.Toy.{World, toy, toy_view, toy-Laws}
use watchmaker.Ptrace.Program.{TracedProgram, session}
use watchmaker.Ptrace.Syscall.{syscall}
use watchmaker.Ptrace.Memory.{aligned_size, align_buffer, ptrace_write_slice}
use watchmaker.Ptrace.Poke.{Poked, ptrace_write_slice-Poked}
use watchmaker.Ptrace.Restore.{Undisturbed, syscall-Undisturbed}
use watchmaker.Ptrace.Trace.{thread_id, trace_body, trace}
use watchmaker.Ptrace.Trace.Ends.{Answers, Bounded}
use watchmaker.Ptrace.Trace.Traced.{Traced, trace_body-Traced, trace-Ends}

-- A memory of numbered bytes, and two pokes left.
abbrev start : World
start = record {
  memory = λ x. x;
  regs = record { general = λ _. 3; ip = 40 };
  pokes = 2;
  writes = 1;
  answer = 11;
  tasks = [];
  maps = [];
  detached = [];
}

abbrev traced : TracedProgram
traced = record {
  pid = 7;
  tids = 7 ∷ [];
  entries = [];
  backup_regs = record { general = λ _. 0; ip = 0 };
  backup_code = 0 ∷ 0 ∷ [];
}

-- Seventeen bytes are three words: the third is not written.
ptrace_write_slice-Poked_example :
    Poked toy_view traced start 96
      (align_buffer (replicate 17 5))
      (ptrace_write_slice toy 96 (replicate 17 5) (session start traced))
unfolding aligned_size
ptrace_write_slice-Poked_example =
    ptrace_write_slice-Poked traced (toy-Laws 7) start 96 (replicate 17 5) (omega arith)

syscall-Undisturbed_example :
    Yields
      (λ _. Undisturbed toy_view amd64 start traced)
      (syscall toy amd64 39 (1 ∷ 2 ∷ []) (session start traced))
syscall-Undisturbed_example =
    syscall-Undisturbed amd64 traced (toy-Laws 7) start 39 (1 ∷ 2 ∷ []) refl

-- The toy kernel with a process of two threads.
abbrev two_threads : Kernel World
two_threads = record toy { task_names = λ pid w. (ok (codes "9" ∷ codes "7" ∷ []), w) }

ids_are_small : Bounded 31 (codes "9" ∷ codes "7" ∷ [])
unfolding thread_id atoi digit parse_digits shift_in int64 uint64
ids_are_small = (
  λ t e. let same : 9 ≡ t = cc in (omega arith, omega arith),
  ((λ t e. let same : 7 ≡ t = cc in (omega arith, omega arith)), tt),
)

two_threads-Answers : Answers two_threads
two_threads-Answers = record {
  some_id = omega arith;
  seize = λ tid w. tt;
  interrupt = λ tid w. tt;
  wait4 = λ tid w. tt;
  maps_file = λ pid w. tt;
  task_names = λ pid w. tt;
  listing = λ pid w w' names e.
      let same : codes "9" ∷ codes "7" ∷ [] ≡ names = cc in subst (Bounded 31) same ids_are_small;
}

-- The phases of the threads 7 and 9, next to the world of the toy kernel.
abbrev Staged : Type 0
Staged = World × (ℕ → Phase)

abbrev staged : ℕ → Phase → Staged → Staged
staged tid phase w = (w.0, λ x. if x == tid then phase else w.1 x)

abbrev phase_of : Staged → ℕ → Phase
phase_of w x = w.1 x

abbrev on_world : {A : Type 0} → M Error World A → M Error Staged A
on_world m w = let (r, t) = m w.0 in (r, (t, w.1))

-- The toy kernel with a process of two threads and their phases.
abbrev phased : Kernel Staged
phased = record {
  task_names = λ pid. on_world (two_threads.task_names pid);
  maps_file = λ pid. on_world (toy.maps_file pid);
  seize = λ tid w. (ok tt, staged tid seized w);
  interrupt = λ tid w. (ok tt, staged tid asked w);
  detach = λ tid w. (ok tt, staged tid loose w);
  wait4 = λ tid w. (ok tid, staged tid stopped w);
  get_regs = λ pid. on_world (toy.get_regs pid);
  set_regs = λ pid r. on_world (toy.set_regs pid r);
  peek_data = λ pid addr n. on_world (toy.peek_data pid addr n);
  poke_data = λ pid addr bytes. on_world (toy.poke_data pid addr bytes);
  single_step = λ pid. on_world (toy.single_step pid);
  vm_read = λ pid addr n. on_world (toy.vm_read pid addr n);
  vm_write = λ pid addr bytes. on_world (toy.vm_write pid addr bytes);
  page_size = 4096;
  pid_max = 32;
}

phased-Answers : Answers phased
phased-Answers = record {
  some_id = omega arith;
  seize = λ tid w. tt;
  interrupt = λ tid w. tt;
  wait4 = λ tid w. tt;
  maps_file = λ pid w. tt;
  task_names = λ pid w. tt;
  listing = λ pid w w' names e.
      let same : codes "9" ∷ codes "7" ∷ [] ≡ names = cc in subst (Bounded 31) same ids_are_small;
}

staged_there : (tid : ℕ) (ph : Phase) (w : Staged) → phase_of (staged tid ph w) tid ≡ ph
staged_there tid ph w = ground arith

staged_elsewhere :
    (tid x : ℕ) (ph : Phase) (w : Staged)
    → (x == tid) ≡ false
    → phase_of (staged tid ph w) x ≡ phase_of w x
staged_elsewhere tid x ph w h = ground arith

phased-Stops : Stops phased phase_of
phased-Stops = record {
  seize = λ tid w t e. ap (λ r. phase_of r.1 tid) (sym e) ∙ staged_there tid seized w;
  seize_others =
      λ tid x w t e d. ap (λ r. phase_of r.1 x) (sym e) ∙ staged_elsewhere tid x seized w d;
  interrupt = λ tid w t e h. ap (λ r. phase_of r.1 tid) (sym e) ∙ staged_there tid asked w;
  interrupt_others =
      λ tid x w t e d. ap (λ r. phase_of r.1 x) (sym e) ∙ staged_elsewhere tid x asked w d;
  wait4 = λ tid w t e h. ap (λ r. phase_of r.1 tid) (sym e) ∙ staged_there tid stopped w;
  wait4_others =
      λ tid x w t e d. ap (λ r. phase_of r.1 x) (sym e) ∙ staged_elsewhere tid x stopped w d;
  task_names = λ pid x w t names e. ap (λ r. phase_of r.1 x) (sym e);
  maps_file = λ pid x w. refl;
}

-- Before the trace no thread is traced.
abbrev at_rest : Staged
at_rest = (start, λ x. loose)

trace_body-Traced_example :
    Finishes
      (Traced phased phase_of 7)
      (trace_body phased amd64 7 (record { world = at_rest; seen = []; attached = [] }))
trace_body-Traced_example =
    trace_body-Traced phased amd64 phased-Answers phase_of phased-Stops 7 at_rest

trace-Ends_example : Ends (trace two_threads amd64 7 start).0
trace-Ends_example = trace-Ends two_threads amd64 two_threads-Answers 7 start
