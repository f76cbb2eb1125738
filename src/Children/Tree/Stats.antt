-- ===== src/Children/Tree/Stats.antt =====
-- `getChildProcesses` on the stat files: the table of children, and the descendants.
use mathlib.Core.Path.{fun_ext}
use watchmaker.Prelude.{
  ℕ, suc, ◌≤◌, ◌≡◌, ◌↔◌, inl, inr, refl, sym, ap, ◌∙◌, subst, List, [], ◌∷◌, Bool, true, false,
  ◌||◌, ◌&&◌, Option, none, some, Option-cases, arith, ◌==◌, length,
}
use watchmaker.Prelude.Sets.{has, has-append}
use watchmaker.Prelude.Outcome.{ok}
use watchmaker.Go.Text.{Bytes}
use watchmaker.Go.Strconv.{parse_uint}
use watchmaker.Children.Tree.{
  PidMap, children_of, add_child, stat_fields, process_stat, all_stats, get_child_processes,
}
use watchmaker.Children.Tree.Descendants.{table, Descends, IsRanked, collect_all_children-Descends}

-- The name is a number, and its stat file names the process `c` and its parent `p`.
unfoldable pub says : (Bytes → Option Bytes) → ℕ → ℕ → Bytes → Bool
says file p c name = elim (parse_uint 10 name) [
  | none ↦ false
  | some _ ↦ elim (stat_fields file name) [
    | none ↦ false
    | some (pid, ppid) ↦ ppid == p && c == pid
  ]
]

-- One of the names does.
unfoldable pub is_listed : (Bytes → Option Bytes) → ℕ → ℕ → List Bytes → Bool
unfolding says
is_listed file p c [] = false
is_listed file p c (name ∷ names) = says file p c name || is_listed file p c names

has-children-add_child :
    (p c q d : ℕ) (m : PidMap)
    → has c (children_of p (add_child q d m)) ≡ (has c (children_of p m) || q == p && c == d)
unfolding children_of add_child has
has-children-add_child p c q d [] = ground arith
has-children-add_child p c q d ((r, cs) ∷ m) =
    ground (arith, has-children-add_child p c q d m, has-append c cs (d ∷ []))

has-children-process_stat :
    (file : Bytes → Option Bytes) (p c : ℕ) (name : Bytes) (m : PidMap)
    → has c (children_of p (process_stat file name m))
      ≡ (has c (children_of p m) || says file p c name)
unfolding process_stat says
has-children-process_stat file p c name m = elim (Option-cases (parse_uint 10 name)) [
  | inl h ↦ rw (h, process_stat, says) (ground arith)
  | inr (n, h) ↦ elim (Option-cases (stat_fields file name)) [
    | inl g ↦ rw (h, g, process_stat, says) (ground arith)
    | inr (both, g) ↦ rw (h, g, process_stat, says) (has-children-add_child p c both.1 both.0 m)
  ]
]

has-children-all_stats :
    (file : Bytes → Option Bytes) (p c : ℕ) (names : List Bytes) (m : PidMap)
    → has c (children_of p (all_stats file names m))
      ≡ (has c (children_of p m) || is_listed file p c names)
unfolding all_stats is_listed
has-children-all_stats file p c [] m = ground arith
has-children-all_stats file p c (name ∷ names) m = ground (
  arith,
  has-children-all_stats file p c names (process_stat file name m),
  has-children-process_stat file p c name m,
)

no_children : (p c : ℕ) → has c (children_of p []) ≡ false
unfolding children_of has
no_children p c = refl

module _ (file : Bytes → Option Bytes) (names : List Bytes) where
  -- What the stat files say.
  abbrev pub listed : ℕ → ℕ → Bool
  listed p c = is_listed file p c names

  table-all_stats : table (all_stats file names []) ≡ listed
  table-all_stats = fun_ext λ p.
      fun_ext
        λ c. has-children-all_stats file p c names [] ∙ ap (λ b. b || listed p c) (no_children p c)

  -- Where every stat file that is listed names a parent of a larger rank than the process has,
  -- and the rank of `p` is at most the number of names, `get_child_processes` returns a list, and
  -- the list holds exactly the descendants of `p` by the stat files of the names that are numbers.
  pub get_child_processes-listed :
      (rank : ℕ → ℕ) (p : ℕ)
      → IsRanked listed rank
      → rank p ≤ length names
      → (found : List ℕ) × (get_child_processes (ok names) file p ≡ ok found)
        × ((x : ℕ) → (has x found ≡ true) ↔ Descends listed p x)
  unfolding get_child_processes
  get_child_processes-listed rank p ranked enough =
      subst
        (λ R.
          (found : List ℕ) × (get_child_processes (ok names) file p ≡ ok found)
          × ((x : ℕ) → (has x found ≡ true) ↔ Descends R p x))
        table-all_stats
        (collect_all_children-Descends (all_stats file names []) rank
          (subst (λ R. IsRanked R rank) (sym table-all_stats) ranked) (suc (length names)) p
          (omega arith))
