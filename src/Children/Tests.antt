-- ===== src/Children/Tests.antt =====
-- Four processes: 2 and 3 are children of 1, and 4 is a child of 3.
use watchmaker.Prelude.{
  ℕ, ◌≡◌, ◌<◌, ◌↔◌, ◌-◌, refl, List, [], ◌∷◌, ◌++◌, true, Option, none, some, if◌then◌else◌, arith,
}
use watchmaker.Prelude.Sets.{has}
use watchmaker.Prelude.Outcome.{ok}
use watchmaker.Go.Text.{Bytes, codes, equal}
use watchmaker.Go.Strconv.{parse_uint, digit}
use watchmaker.Children.Stat.{
  runes_of, skip_space, gap, digits_of, behind_digits, behind_word, scan_number, scan_word,
  scan_stat,
}
use watchmaker.DateParse.Runes.{decode_rune}
use watchmaker.Children.Tree.{get_child_processes}
use watchmaker.Children.Tree.Descendants.{Descends}
use watchmaker.Children.Tree.Processes.{
  Process, IsPlain, stat_line, Shows, nothing, other, process, is_child,
  get_child_processes-Descends,
}

-- The shell is process 1.
abbrev sh : ℕ → ℕ → Process
sh pid ppid = record {
  pid = pid;
  pid_width = 1;
  comm = codes "sh";
  state = b'S';
  ppid = ppid;
  ppid_width = 1;
}

abbrev group : Bytes
group = codes "1 1 0"

abbrev file : Bytes → Option Bytes
file name =
    if equal name (codes "1")
    then some (stat_line (sh 1 0) group)
    else if equal name (codes "2")
    then some (stat_line (sh 2 1) group)
    else if equal name (codes "3")
    then some (stat_line (sh 3 1) group)
    else if equal name (codes "4")
    then some (stat_line (sh 4 3) group)
    else none

abbrev names : List Bytes
names = codes "1" ∷ codes "4" ∷ codes "self" ∷ codes "2" ∷ codes "3" ∷ []

abbrev processes : List Process
processes = sh 1 0 ∷ sh 4 3 ∷ sh 2 1 ∷ sh 3 1 ∷ []

sh-IsPlain : (pid ppid : ℕ) → pid < 10 → ppid < 10 → IsPlain (sh pid ppid)
sh-IsPlain pid ppid h g = record {
  solid = (refl, omega arith, (refl, omega arith, tt));
  letter = (refl, omega arith, tt);
  pid_digits = (omega arith, omega arith, omega arith);
  ppid_digits = (omega arith, omega arith, omega arith);
}

listing : Shows file names processes
unfolding parse_uint digit equal
listing = process (sh 1 0) group (sh-IsPlain 1 0 (omega arith) (omega arith)) (ground arith) refl (
    process (sh 4 3) group (sh-IsPlain 4 3 (omega arith) (omega arith)) (ground arith) refl (
      other refl (
        process (sh 2 1) group (sh-IsPlain 2 1 (omega arith) (omega arith)) (ground arith) refl (
          process (sh 3 1) group (sh-IsPlain 3 1 (omega arith) (omega arith)) (ground arith) refl
            nothing))))

found_children : get_child_processes (ok names) file 1 ≡ ok (2 ∷ 3 ∷ 4 ∷ [])
unfolding get_child_processes parse_uint digit equal runes_of skip_space gap digits_of behind_digits
    behind_word scan_number scan_word scan_stat decode_rune
found_children = refl

-- A name with a blank, and one with a character of white space that is not ASCII: the process is not
-- found.
blanks_are_lost :
    (scan_stat (codes "4 (tmux: server) S 3 4") ≡ none)
    × (scan_stat (codes "4 (a" ++ 0xc2 ∷ 0xa0 ∷ codes "b) S 3 4") ≡ none)
    × (scan_stat (codes "4 (tmux) S 3 4") ≡ some (4, 3))
unfolding parse_uint digit runes_of skip_space gap digits_of behind_digits behind_word scan_number
    scan_word scan_stat decode_rune
blanks_are_lost = (refl, refl, refl)

-- A process has a larger number than its parent.
falls : (p c : ℕ) → is_child processes p c ≡ true → 4 - c < 4 - p
unfolding is_child
falls p c h = ground arith

get_child_processes-Descends_example :
    (found : List ℕ) × (get_child_processes (ok names) file 1 ≡ ok found)
    × ((x : ℕ) → (has x found ≡ true) ↔ Descends (is_child processes) 1 x)
get_child_processes-Descends_example =
    get_child_processes-Descends file names processes (λ p. 4 - p) 1 listing
      (record { falls = falls }) (omega arith)
