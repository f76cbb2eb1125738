-- ===== src/Children/Tree.antt =====
-- `getChildProcesses`, `processStat` and `collectAllChildren`. The goroutines add to the map one
-- at a time under its mutex; the list of names is the order in which they get it.
pub mod Descendants
pub mod Stats
pub mod Processes
use watchmaker.Prelude.{
  ℕ, zero, suc, ◌≡◌, List, [], ◌∷◌, ◌++◌, Bool, Option, none, some, ◌==◌, if◌then◌else◌, length,
}
use watchmaker.Prelude.Outcome.{Outcome, ok, fail, panic, hung}
use watchmaker.Go.Text.{Bytes}
use watchmaker.Go.Strconv.{parse_uint}
use watchmaker.Children.Stat.{scan_stat}
use watchmaker.Errors.{Error, wrapped}

-- `map[uint64][]uint64`: a key may be missing.
abbrev pub PidMap : Type 0
PidMap = List (ℕ × List ℕ)

unfoldable pub children_of : ℕ → PidMap → List ℕ
children_of p [] = []
children_of p ((q, cs) ∷ m) = if q == p then cs else children_of p m

-- `pidMap[ppid] = append(pidMap[ppid], pid)`.
unfoldable pub add_child : ℕ → ℕ → PidMap → PidMap
add_child p c [] = (p, c ∷ []) ∷ []
add_child p c ((q, cs) ∷ m) = if q == p then (q, cs ++ c ∷ []) ∷ m else (q, cs) ∷ add_child p c m

-- What `processStat` reads of a process: `file` is the content of its stat file, or nothing if that
-- cannot be opened.
abbrev pub stat_fields : (Bytes → Option Bytes) → Bytes → Option (ℕ × ℕ)
stat_fields file name = elim (file name) [ none ↦ none | some text ↦ scan_stat text ]

-- `processStat`.
unfoldable pub process_stat : (Bytes → Option Bytes) → Bytes → PidMap → PidMap
unfolding add_child parse_uint scan_stat
process_stat file name m = elim (parse_uint 10 name) [
  | none ↦ m
  | some _ ↦ elim (stat_fields file name) [ none ↦ m | some (pid, ppid) ↦ add_child ppid pid m ]
]

unfoldable pub all_stats : (Bytes → Option Bytes) → List Bytes → PidMap → PidMap
unfolding process_stat
all_stats file [] m = m
all_stats file (name ∷ names) m = all_stats file names (process_stat file name m)

-- The loop over the children of one process, with the result so far.
unfoldable pub gather : (ℕ → Outcome Error (List ℕ)) → List ℕ → List ℕ → Outcome Error (List ℕ)
gather below result [] = ok result
gather below result (c ∷ cs) = elim (below c) [
  | ok found ↦ gather below ((result ++ c ∷ []) ++ found) cs
  | fail e ↦ fail e
  | panic ↦ panic
  | hung ↦ hung
]

-- `collectAllChildren`, with fuel for the depth of the recursion.
unfoldable pub collect_all_children : ℕ → PidMap → ℕ → Outcome Error (List ℕ)
collect_all_children zero m ppid = hung
collect_all_children (suc fuel) m ppid =
    gather (collect_all_children fuel m) [] (children_of ppid m)

-- `getChildProcesses`, on what `os.ReadDir` returns. No chain of processes is longer than the
-- list.
unfoldable pub get_child_processes :
    Outcome Error (List Bytes) → (Bytes → Option Bytes) → ℕ → Outcome Error (List ℕ)
unfolding all_stats collect_all_children gather children_of
get_child_processes (ok names) file ppid =
    collect_all_children (suc (length names)) (all_stats file names []) ppid
get_child_processes (fail e) file ppid = fail (wrapped e)
get_child_processes panic file ppid = panic
get_child_processes hung file ppid = hung
