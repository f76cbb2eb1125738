-- ===== src/Ptrace/Trace/Traced.antt =====
-- `Trace` as a whole.
use watchmaker.Prelude.{
  ℕ, ◌-◌, ◌≤◌, ◌≡◌, refl, sym, ap, ◌∙◌, List, [], ◌∷◌, true, ◌||◌, arith, leb, ◌==◌, inl, inr,
  Bool-cases,
}
use watchmaker.Prelude.Sets.{has}
use watchmaker.Prelude.Outcome.{ok, fail, panic, hung}
use watchmaker.Prelude.State.{Ran}
use watchmaker.Prelude.Finishes.{Finishes, on_ok, Ends, ends, bind, mono, ending_then}
use watchmaker.Prelude.Yields.{Yields, with_yields}
use watchmaker.Prelude.Yields.{bind as yields_then}
use watchmaker.Go.Text.{Bytes}
use watchmaker.Ptrace.Trace.Stopped.{
  Phase, stopped, Stops, Listed, lists, success_then, trace_loop-Listed,
}
use watchmaker.Errors.{Error}
use watchmaker.Kernel.{Arch, Kernel}
use watchmaker.Maps.{read_maps}
use watchmaker.Maps.Ends.{read_maps-Ends}
use watchmaker.Ptrace.Program.{TracedProgram}
use watchmaker.Ptrace.Trace.{insert_sorted, sort, Tracing, trace_body, finish_trace, trace}
use watchmaker.Ptrace.Trace.Ends.{Answers, Looped, trace_loop-Finishes, unseen-nil}

-- In ascending order.
abbrev pub IsSorted : List ℕ → Type 0
IsSorted [] = Unit
IsSorted (a ∷ bs) = ((x : ℕ) → has x bs ≡ true → a ≤ x) × IsSorted bs

has-insert_sorted : (x a : ℕ) (bs : List ℕ) → has x (insert_sorted a bs) ≡ (x == a || has x bs)
unfolding insert_sorted has
has-insert_sorted x a [] = refl
has-insert_sorted x a (b ∷ bs) = ground (arith, has-insert_sorted x a bs)

has-sort : (x : ℕ) (bs : List ℕ) → has x (sort bs) ≡ has x bs
unfolding sort has
has-sort x [] = refl
has-sort x (b ∷ bs) = ground (arith, has-insert_sorted x b (sort bs), has-sort x bs)

insert_sorted-IsSorted : (a : ℕ) (bs : List ℕ) → IsSorted bs → IsSorted (insert_sorted a bs)
unfolding insert_sorted has
insert_sorted-IsSorted a [] h = (λ x g. absurd (cc), tt)
insert_sorted-IsSorted a (b ∷ bs) h = elim (Bool-cases (leb a b)) [
  | inl e ↦ rw (e, insert_sorted) ((λ x g. ground (arith, h.0 x)), h)
  | inr e ↦
      rw (e, insert_sorted)
        ((λ x g. ground (arith, has-insert_sorted x a bs, h.0 x)), insert_sorted-IsSorted a bs h.1)
]

sort-IsSorted : (bs : List ℕ) → IsSorted (sort bs)
unfolding sort
sort-IsSorted [] = tt
sort-IsSorted (b ∷ bs) = insert_sorted-IsSorted b (sort bs) (sort-IsSorted bs)

-- What the body returns: the program has the pid, and its thread ids are in order and remembered as
-- attached.
record InOrder {W : Type 0} (pid : ℕ) (p : TracedProgram) (t : Tracing W) : Type 0 where
  same_pid : p.pid ≡ pid
  sorted : IsSorted p.tids
  attached : (x : ℕ) → has x p.tids ≡ true → has x t.attached ≡ true

module _ {W : Type 0} (k : Kernel W) (arch : Arch) (answers : Answers k) where
  abbrev start : W → Tracing W
  start w = record { world = w; seen = []; attached = [] }

  trace_body-InOrder : (pid : ℕ) (w : W) → Finishes (InOrder pid) (trace_body k arch pid (start w))
  unfolding trace_body Looped
  trace_body-InOrder pid w =
      bind
        (trace_loop-Finishes answers k.pid_max pid (start w)
          (omega (arith, unseen-nil (k.pid_max - 1), answers.some_id)) (λ x. refl))
        λ tids t (settled, known).
          let file = k.maps_file pid t.world in
          ending_then (read_maps file.0, file.1) (λ u. record t { world = u }) _
            (read_maps-Ends file.0 (answers.maps_file pid t.world))
            λ entries u _. on_ok (record {
              same_pid = refl;
              sorted = sort-IsSorted tids;
              attached = λ x h. ground (arith, settled x, known x, has-sort x tids);
            })

-- The program that `trace_body` returns, and the state it leaves.
pub record Traced {W : Type 0} (k : Kernel W) (phase : W → ℕ → Phase) (pid : ℕ) (p : TracedProgram)
    (t : Tracing W) : Type 0 where
  pub same_pid : p.pid ≡ pid
  pub sorted : IsSorted p.tids
  pub attached : (x : ℕ) → has x p.tids ≡ true → has x t.attached ≡ true
  pub names : List Bytes
  pub shown : (w : W) × (u : W) × (k.task_names pid w ≡ (ok names, u))
  pub exact : (x : ℕ) → has x p.tids ≡ lists x names
  pub halted : (x : ℕ) → has x p.tids ≡ true → phase t.world x ≡ stopped

module _ {W : Type 0} (k : Kernel W) (arch : Arch) (answers : Answers k) (phase : W → ℕ → Phase)
    (stops : Stops k phase) where
  none_seen : (x : ℕ) (w : W) → has x [] ≡ true → phase w x ≡ stopped
  unfolding has
  none_seen x w h = absurd (cc)

  trace_body-Listed :
      (pid : ℕ) (w : W)
      → Yields
          (λ p t. Listed stops pid p.tids t)
          (trace_body k arch pid (record { world = w; seen = []; attached = [] }))
  unfolding trace_body
  trace_body-Listed pid w =
      yields_then
        (trace_loop-Listed stops k.pid_max pid (record { world = w; seen = []; attached = [] })
          (λ x h. none_seen x w h))
        λ tids t l.
          let file = k.maps_file pid t.world in
          success_then (read_maps file.0, file.1) (λ u. record t { world = u }) _
            λ entries u e.
              let there : u ≡ file.1 = sym (ap (λ r. r.1) e) in
              Yields.on_ok (record {
                names = l.names;
                shown = l.shown;
                exact = λ x. has-sort x tids ∙ l.exact x;
                halted = λ x h.
                    ap (λ v. phase v x) there
                    ∙ stops.maps_file pid x t.world
                    ∙ l.halted x (sym (has-sort x tids) ∙ h);
              })

  -- Where the calls of the kernel end, no thread id reaches `pid_max`, and seizing, interrupting and
  -- waiting for a thread stops it, the body of `Trace` is not out of fuel. If it succeeds, then the
  -- program has the pid; its thread ids are in order, all attached, and exactly those of a listing of
  -- the process; and all these threads are stopped.
  pub trace_body-Traced :
      (pid : ℕ) (w : W)
      → Finishes
          (Traced k phase pid)
          (trace_body k arch pid (record { world = w; seen = []; attached = [] }))
  trace_body-Traced pid w =
      mono (with_yields (trace_body-InOrder k arch answers pid w) (trace_body-Listed pid w))
        λ p t (o, l). record {
          same_pid = o.same_pid;
          sorted = o.sorted;
          attached = o.attached;
          names = l.names;
          shown = l.shown;
          exact = l.exact;
          halted = l.halted;
        }

module _ {W : Type 0} (k : Kernel W) (arch : Arch) (answers : Answers k) where
  finish_trace-Ends :
      (r : Ran Error (Tracing W) TracedProgram) → Ends r.0 → Ends (finish_trace k arch r).0
  finish_trace-Ends (ok p, t) h = tt
  finish_trace-Ends (fail e, t) h = tt
  finish_trace-Ends (panic, t) h = tt
  finish_trace-Ends (hung, t) h = h

  -- Where the calls of the kernel end and no thread id reaches `pid_max`, `trace` ends.
  pub trace-Ends : (pid : ℕ) (w : W) → Ends (trace k arch pid w).0
  unfolding trace
  trace-Ends pid w =
      finish_trace-Ends (trace_body k arch pid (start k arch answers w))
        (ends (trace_body-InOrder k arch answers pid w))
