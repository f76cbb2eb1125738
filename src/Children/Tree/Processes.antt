-- ===== src/Children/Tree/Processes.antt =====
-- `getChildProcesses` on the stat files that the kernel writes (proc(5)).
use watchmaker.Prelude.{
  ℕ, zero, suc, ◌+◌, ◌/◌, ◌%◌, ◌^◌, ◌<◌, ◌≤◌, ◌≡◌, ◌↔◌, refl, sym, ap, subst, List, [], ◌∷◌, ◌++◌,
  Bool, true, false, ◌||◌, ◌&&◌, Option, none, some, arith, ◌==◌, length,
}
use mathlib.Core.Path.{fun_ext}
use watchmaker.Prelude.Sets.{has}
use watchmaker.Prelude.Outcome.{ok}
use watchmaker.Go.Text.{Bytes}
use watchmaker.Go.Words.{two_64}
use watchmaker.Go.Strconv.{parse_uint}
use watchmaker.Offset.Decimal.{decimal, parse_uint-decimal}
use watchmaker.DateParse.Runes.{decode_rune}
use watchmaker.Children.Stat.{
  runes_of, is_space, skip_space, skip_blanks, is_decimal, digits_of, behind_digits, behind_word,
  scan_number, scan_word, scan_stat,
}
use watchmaker.Children.Tree.{get_child_processes}
use watchmaker.Children.Tree.Descendants.{Descends, IsRanked}
use watchmaker.Children.Tree.Stats.{says, is_listed, listed, get_child_processes-listed}

-- An ASCII text, and one without white space.
abbrev pub Ascii : Bytes → Type 0
Ascii [] = Unit
Ascii (c ∷ s) = (c < 128) × Ascii s

abbrev pub Solid : Bytes → Type 0
Solid [] = Unit
Solid (c ∷ s) = (is_space c ≡ false) × (c < 128) × Solid s

Ascii-append : (s t : Bytes) → Ascii s → Ascii t → Ascii (s ++ t)
Ascii-append [] t h g = g
Ascii-append (c ∷ s) t h g = (h.0, Ascii-append s t h.1 g)

Solid-Ascii : (s : Bytes) → Solid s → Ascii s
Solid-Ascii [] h = tt
Solid-Ascii (c ∷ s) h = (h.1, Solid-Ascii s h.2)

decimal-Solid : (w n : ℕ) → Solid (decimal w n)
decimal-Solid zero n = tt
decimal-Solid (suc w) n =
    snoc (decimal w (n / 10)) (b'0' + n % 10) (decimal-Solid w (n / 10)) (ground arith)
      (omega arith)
  where
    snoc : (s : Bytes) (c : ℕ) → Solid s → is_space c ≡ false → c < 128 → Solid (s ++ c ∷ [])
    snoc [] c h g l = (g, l, tt)
    snoc (x ∷ s) c h g l = (h.0, h.1, snoc s c h.2 g l)

-- The characters of an ASCII text are its bytes.
runes_of-Ascii : (n : ℕ) (s : Bytes) → length s ≤ n → Ascii s → runes_of n s ≡ s
unfolding runes_of decode_rune
runes_of-Ascii zero [] h g = refl
runes_of-Ascii zero (c ∷ s) h g = absurd (omega arith)
runes_of-Ascii (suc n) [] h g = refl
runes_of-Ascii (suc n) (c ∷ s) h g = ground (arith, runes_of-Ascii n s)

-- The scanner behind digits, and behind a word, where a blank follows.
abbrev AllDecimal : Bytes → Type 0
AllDecimal [] = Unit
AllDecimal (c ∷ s) = (is_decimal c ≡ true) × AllDecimal s

decimal-AllDecimal : (w n : ℕ) → AllDecimal (decimal w n)
decimal-AllDecimal zero n = tt
decimal-AllDecimal (suc w) n =
    snoc (decimal w (n / 10)) (b'0' + n % 10) (decimal-AllDecimal w (n / 10)) (ground arith)
  where
    snoc : (s : Bytes) (c : ℕ) → AllDecimal s → is_decimal c ≡ true → AllDecimal (s ++ c ∷ [])
    snoc [] c h g = (g, tt)
    snoc (x ∷ s) c h g = (h.0, snoc s c h.1 g)

digits_of-append :
    (s : Bytes) (c : ℕ) (t : Bytes)
    → AllDecimal s
    → is_decimal c ≡ false
    → (digits_of (s ++ c ∷ t) ≡ s) × (behind_digits (s ++ c ∷ t) ≡ c ∷ t)
unfolding digits_of behind_digits
digits_of-append [] c t h g = rw g (refl, refl)
digits_of-append (x ∷ s) c t h g =
    let (front, back) = digits_of-append s c t h.1 g in rw (h.0, front, back) (refl, refl)

behind_word-append :
    (s : Bytes) (c : ℕ) (t : Bytes) → Solid s → is_space c ≡ true → behind_word (s ++ c ∷ t) ≡ c ∷ t
unfolding behind_word
behind_word-append [] c t h g = rw g refl
behind_word-append (x ∷ s) c t h g = rw (h.0, behind_word) (behind_word-append s c t h.2 g)

-- A text that starts with no white space.
abbrev Starts : Bytes → Type 0
Starts [] = ⊥
Starts (c ∷ s) = is_space c ≡ false

skip_space-Starts : (s : Bytes) → Starts s → skip_space s ≡ some s
unfolding skip_space
skip_space-Starts [] h = elim h [ ]
skip_space-Starts (c ∷ s) h = ground arith

skip_blanks-Starts : (s : Bytes) → Starts s → skip_blanks s ≡ s
skip_blanks-Starts [] h = elim h [ ]
skip_blanks-Starts (c ∷ s) h = rw h refl

Starts-append : (s t : Bytes) → 0 < length s → Solid s → Starts (s ++ t)
Starts-append [] t h g = absurd (omega arith)
Starts-append (c ∷ s) t h g = g.0

scan_word-append :
    (s t : Bytes) → 0 < length s → Solid s → scan_word (s ++ b' ' ∷ t) ≡ some (b' ' ∷ t)
unfolding scan_word
scan_word-append [] t h g = absurd (omega arith)
scan_word-append (c ∷ s) t h g =
    rw (skip_space-Starts (c ∷ (s ++ b' ' ∷ t)) g.0)
      (ap some (behind_word-append (c ∷ s) b' ' t g refl))

length-decimal : (w n : ℕ) → 0 < w → 0 < length (decimal w n)
length-decimal zero n h = absurd (omega arith)
length-decimal (suc w) n h = positive (decimal w (n / 10)) (b'0' + n % 10)
  where
    positive : (s : Bytes) (c : ℕ) → 0 < length (s ++ c ∷ [])
    positive [] c = omega arith
    positive (x ∷ s) c = omega arith

scan_number-decimal :
    (w n : ℕ) (t : Bytes)
    → 0 < w
    → n < 10 ^ w
    → n < two_64
    → scan_number (decimal w n ++ b' ' ∷ t) ≡ some (n, b' ' ∷ t)
unfolding scan_number
scan_number-decimal w n t some_digit wide fits =
    let s = decimal w n ++ b' ' ∷ t in
    let (front, back) = digits_of-append (decimal w n) b' ' t (decimal-AllDecimal w n) refl in
    rw
      (
        skip_space-Starts s (
            Starts-append (decimal w n) (b' ' ∷ t) (length-decimal w n some_digit)
              (decimal-Solid w n)),
        front,
        back,
        parse_uint-decimal w n some_digit wide fits,
      )
      refl

-- A process: its number and its parent's with the widths in which they are printed, its name, and the
-- letter of its state.
pub record Process : Type 0 where
  pub pid : ℕ
  pub pid_width : ℕ
  pub comm : Bytes
  pub state : ℕ
  pub ppid : ℕ
  pub ppid_width : ℕ

abbrev pub name_of : Process → Bytes
name_of q = decimal q.pid_width q.pid

abbrev pub comm_of : Process → Bytes
comm_of q = b'(' ∷ (q.comm ++ b')' ∷ [])

-- The line of a stat file: `rest` is what stands behind the parent.
abbrev pub stat_line : Process → Bytes → Bytes
stat_line q rest =
    name_of q
    ++ b' ' ∷ (comm_of q ++ b' ' ∷ q.state ∷ b' ' ∷ (decimal q.ppid_width q.ppid ++ b' ' ∷ rest))

-- The name is ASCII without white space, and the numbers fit.
pub record IsPlain (q : Process) : Type 0 where
  pub solid : Solid q.comm
  pub letter : Solid (q.state ∷ [])
  pub pid_digits : (0 < q.pid_width) × (q.pid < 10 ^ q.pid_width) × (q.pid < two_64)
  pub ppid_digits : (0 < q.ppid_width) × (q.ppid < 10 ^ q.ppid_width) × (q.ppid < two_64)

comm-Solid : (s : Bytes) → Solid s → Solid (b'(' ∷ (s ++ b')' ∷ []))
comm-Solid s h = (refl, omega arith, closed s h)
  where
    closed : (t : Bytes) → Solid t → Solid (t ++ b')' ∷ [])
    closed [] g = (refl, omega arith, tt)
    closed (c ∷ t) g = (g.0, g.1, closed t g.2)

module _ (q : Process) (rest : Bytes) (plain : IsPlain q) (ascii : Ascii rest) where
  abbrev behind_comm : Bytes
  behind_comm = q.state ∷ b' ' ∷ (decimal q.ppid_width q.ppid ++ b' ' ∷ rest)

  stat_line-Ascii : Ascii (stat_line q rest)
  stat_line-Ascii =
      Ascii-append (name_of q) _ (Solid-Ascii (name_of q) (decimal-Solid q.pid_width q.pid)) (
        omega arith,
        Ascii-append (comm_of q) _ (Solid-Ascii (comm_of q) (comm-Solid q.comm plain.solid)) (
          omega arith,
          (
            plain.letter.1,
            (
              omega arith,
              Ascii-append (decimal q.ppid_width q.ppid) _
                  (Solid-Ascii (decimal q.ppid_width q.ppid) (decimal-Solid q.ppid_width q.ppid))
                  (omega arith, ascii),
            ),
          ),
        ),
      )

  parent_digits : Starts (decimal q.ppid_width q.ppid ++ b' ' ∷ rest)
  parent_digits =
      Starts-append (decimal q.ppid_width q.ppid) (b' ' ∷ rest)
        (length-decimal q.ppid_width q.ppid plain.ppid_digits.0) (decimal-Solid q.ppid_width q.ppid)

  -- `scan_stat` of the line of a process finds the process and its parent.
  scan_stat-line : scan_stat (stat_line q rest) ≡ some (q.pid, q.ppid)
  unfolding scan_stat
  scan_stat-line =
      let line = stat_line q rest in
      rw
        (
          runes_of-Ascii (length line) line (omega arith) stat_line-Ascii,
          scan_number-decimal q.pid_width q.pid (comm_of q ++ b' ' ∷ behind_comm) plain.pid_digits.0
              plain.pid_digits.1 plain.pid_digits.2,
          behind_word-append (q.comm ++ b')' ∷ []) b' ' behind_comm
              (comm-Solid q.comm plain.solid).2 refl,
          skip_blanks-Starts behind_comm plain.letter.0,
          scan_word-append (q.state ∷ []) (decimal q.ppid_width q.ppid ++ b' ' ∷ rest) (omega arith)
              plain.letter,
          skip_blanks-Starts (decimal q.ppid_width q.ppid ++ b' ' ∷ rest) parent_digits,
          scan_number-decimal q.ppid_width q.ppid rest plain.ppid_digits.0 plain.ppid_digits.1
              plain.ppid_digits.2,
        )
        refl

-- A listing of /proc: a name that is no number, or the number of a process, whose stat file has its
-- line.
pub data Shows (file : Bytes → Option Bytes) : List Bytes → List Process → Type 0 where
  nothing : Shows file [] []
  other :
      {name : Bytes} {names : List Bytes} {qs : List Process}
      → parse_uint 10 name ≡ none
      → Shows file names qs
      → Shows file (name ∷ names) qs
  process :
      {names : List Bytes} {qs : List Process} (q : Process) (rest : Bytes)
      → IsPlain q
      → Ascii rest
      → file (name_of q) ≡ some (stat_line q rest)
      → Shows file names qs
      → Shows file (name_of q ∷ names) (q ∷ qs)

-- One of the processes is `c`, and `p` is its parent.
unfoldable pub is_child : List Process → ℕ → ℕ → Bool
is_child [] p c = false
is_child (q ∷ qs) p c = q.ppid == p && c == q.pid || is_child qs p c

module _ (file : Bytes → Option Bytes) where
  says-line :
      (q : Process) (rest : Bytes) (p c : ℕ)
      → IsPlain q
      → Ascii rest
      → file (name_of q) ≡ some (stat_line q rest)
      → says file p c (name_of q) ≡ (q.ppid == p && c == q.pid)
  unfolding says
  says-line q rest p c plain ascii e =
      rw
        (
          parse_uint-decimal q.pid_width q.pid plain.pid_digits.0 plain.pid_digits.1
              plain.pid_digits.2,
          e,
          scan_stat-line q rest plain ascii,
          says,
        )
        refl

  says-other : (name : Bytes) (p c : ℕ) → parse_uint 10 name ≡ none → says file p c name ≡ false
  unfolding says
  says-other name p c e = rw (e, says) refl

  is_listed-Shows :
      (names : List Bytes) (qs : List Process) (p c : ℕ)
      → Shows file names qs
      → is_listed file p c names ≡ is_child qs p c
  unfolding is_listed is_child
  is_listed-Shows [] [] p c nothing = refl
  is_listed-Shows [] (q ∷ qs) p c h = elim h [ ]
  is_listed-Shows (name ∷ names) qs p c (other e h) =
      ground (arith, says-other name p c e, is_listed-Shows names qs p c h)
  is_listed-Shows (_ ∷ names) (_ ∷ qs) p c (process q rest plain ascii e h) =
      ground (arith, says-line q rest p c plain ascii e, is_listed-Shows names qs p c h)

  -- For a listing of /proc in which every number is a process, whose stat file has its line as in
  -- proc(5), with a name that is ASCII and holds no white space: where a rank falls from every process
  -- to its children, and the rank of `p` is at most the number of names, `get_child_processes` returns
  -- a list, and the list holds exactly the descendants of `p`.
  pub get_child_processes-Descends :
      (names : List Bytes) (qs : List Process) (rank : ℕ → ℕ) (p : ℕ)
      → Shows file names qs
      → IsRanked (is_child qs) rank
      → rank p ≤ length names
      → (found : List ℕ) × (get_child_processes (ok names) file p ≡ ok found)
        × ((x : ℕ) → (has x found ≡ true) ↔ Descends (is_child qs) p x)
  get_child_processes-Descends names qs rank p shows ranked enough =
      let same : listed file names ≡ is_child qs =
        fun_ext λ a. fun_ext λ c. is_listed-Shows names qs a c shows in
      subst
        (λ R.
          (found : List ℕ) × (get_child_processes (ok names) file p ≡ ok found)
          × ((x : ℕ) → (has x found ≡ true) ↔ Descends R p x))
        same
        (get_child_processes-listed file names rank p
          (subst (λ R. IsRanked R rank) (sym same) ranked) enough)
