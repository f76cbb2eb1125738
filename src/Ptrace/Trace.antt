-- ===== src/Ptrace/Trace.antt =====
-- `Trace`: every thread of a process is seized and stopped, until a listing shows no new one.
pub mod Ends
pub mod Stopped
pub mod Traced
use watchmaker.Prelude.{
  ℕ, zero, suc, ◌^◌, List, [], ◌∷◌, ◌++◌, Bool, true, false, ◌||◌, none, some, ltb, leb, ◌==◌,
  if◌then◌else◌, replicate,
}
use watchmaker.Prelude.Sets.{has}
use watchmaker.Prelude.Int.{pos, negsuc}
use watchmaker.Prelude.Outcome.{Outcome, ok, fail, panic, hung}
use watchmaker.Prelude.State.{Ran, M, and_then, pure, ◌>>=◌, ◌>>◌, zoom}
use watchmaker.Go.Text.{Bytes}
use watchmaker.Go.Words.{uint64}
use watchmaker.Go.Strconv.{atoi}
use watchmaker.Errors.{Error, bad_number}
use watchmaker.Kernel.{Arch, Kernel}
use watchmaker.Maps.{Entry, read_maps}
use watchmaker.Ptrace.Program.{TracedProgram, wait_for, instr_size}
use watchmaker.Ptrace.Syscall.{lift}

-- `strconv.ParseInt(name, 10, 32)`, as an `int`: its 64-bit pattern.
unfoldable pub thread_id : Bytes → Outcome Error ℕ
unfolding atoi uint64
thread_id name = elim (atoi name) [
  | none ↦ fail (bad_number name)
  | some (pos n) ↦ if ltb n (2 ^ 31) then ok (uint64 (pos n)) else fail (bad_number name)
  | some (negsuc n) ↦ if ltb n (2 ^ 31) then ok (uint64 (negsuc n)) else fail (bad_number name)
]

-- Sets of thread ids, as `map[int]bool` with `true` at its keys.
abbrev pub put : ℕ → List ℕ → List ℕ
put a bs = if has a bs then bs else a ∷ bs

-- `slices.Sort`.
unfoldable pub insert_sorted : ℕ → List ℕ → List ℕ
insert_sorted a [] = a ∷ []
insert_sorted a (b ∷ bs) = if leb a b then a ∷ b ∷ bs else b ∷ insert_sorted a bs

unfoldable pub sort : List ℕ → List ℕ
unfolding insert_sorted
sort [] = []
sort (a ∷ bs) = insert_sorted a (sort bs)

-- The world, `tidMap` and `attachedTids`.
pub record Tracing (W : Type 0) : Type 0 where
  pub world : W
  pub seen : List ℕ
  pub attached : List ℕ

module _ {W : Type 0} where
  abbrev pub asking : {A : Type 0} → M Error W A → M Error (Tracing W) A
  asking = zoom (λ s. s.world) (λ s w. record s { world = w })

  abbrev pub remember_attached : ℕ → M Error (Tracing W) (Unit {0})
  remember_attached tid s = pure tt (record s { attached = s.attached ++ tid ∷ [] })

  abbrev pub remember_seen : ℕ → M Error (Tracing W) (Unit {0})
  remember_seen tid s = pure tt (record s { seen = tid ∷ s.seen })

  abbrev pub is_seen : ℕ → M Error (Tracing W) Bool
  is_seen tid s = pure (has tid s.seen) s

module _ {W : Type 0} (k : Kernel W) where
  -- A thread that is new: the part of the loop's body behind `subset = false`.
  unfoldable pub attach_thread : ℕ → M Error (Tracing W) (Unit {0})
  attach_thread tid = do
    asking (k.seize tid)
    asking (k.interrupt tid)
    remember_attached tid
    asking (wait_for k tid)
    remember_seen tid

  -- The loop over one listing, with `tids` and `subset` so far.
  unfoldable pub scan_threads : List Bytes → List ℕ → Bool → M Error (Tracing W) (List ℕ × Bool)
  scan_threads [] tids subset = pure (tids, subset)
  scan_threads (name ∷ names) tids subset = do
    tid ← lift (thread_id name)
    known ← is_seen tid
    elim known [
      | true ↦ scan_threads names (put tid tids) subset
      | false ↦ attach_thread tid >> scan_threads names (put tid tids) false
    ]

  -- The loop over listings.
  unfoldable pub trace_loop : ℕ → ℕ → M Error (Tracing W) (List ℕ)
  trace_loop zero pid s = (hung, s)
  trace_loop (suc fuel) pid s = and_then (asking (k.task_names pid) s) λ names.
      scan_threads names [] true >>= λ found. elim found.1 [
        | true ↦ pure found.0
        | false ↦ trace_loop fuel pid
      ]

  -- The deferred clean-up: errors are only logged.
  unfoldable pub detach_quietly : List ℕ → W → W
  detach_quietly [] w = w
  detach_quietly (tid ∷ tids) w = detach_quietly tids (k.detach tid w).1

  -- `ReadMaps`.
  abbrev pub maps_of : ℕ → M Error W (List Entry)
  maps_of pid w = let (content, t) = k.maps_file pid w in (read_maps content, t)

module _ {W : Type 0} (k : Kernel W) (arch : Arch) where
  abbrev pub fresh_program : ℕ → List ℕ → List Entry → TracedProgram
  fresh_program pid tids entries = record {
    pid = pid;
    tids = sort tids;
    entries = entries;
    backup_regs = record { general = λ _. 0; ip = 0 };
    backup_code = replicate (instr_size arch) 0;
  }

  -- All that `Trace` does before its deferred function.
  unfoldable pub trace_body : ℕ → M Error (Tracing W) TracedProgram
  trace_body pid = do
    tids ← trace_loop k k.pid_max pid
    entries ← asking (maps_of k pid)
    pure (fresh_program pid tids entries)

  abbrev pub finish_trace : Ran Error (Tracing W) TracedProgram → Ran Error W TracedProgram
  finish_trace (ok p, t) = (ok p, t.world)
  finish_trace (fail e, t) = (fail e, detach_quietly k t.attached t.world)
  finish_trace (panic, t) = (panic, detach_quietly k t.attached t.world)
  finish_trace (hung, t) = (hung, t.world)

  -- `Trace`.
  unfoldable pub trace : ℕ → M Error W TracedProgram
  unfolding trace_body
  trace pid w = finish_trace (trace_body pid (record { world = w; seen = []; attached = [] }))
