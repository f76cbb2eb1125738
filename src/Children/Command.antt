-- ===== src/Children/Command.antt =====
-- `main` of cmd/watchmaker.go, behind the parsing of the flags. `log.Fatalln` ends the run with
-- the error; errors at the children are only logged.
use watchmaker.Prelude.{ℕ, List, [], ◌∷◌, Option, ◌==◌, if◌then◌else◌}
use watchmaker.Prelude.Int.{ℤ, pos}
use watchmaker.Prelude.Outcome.{Outcome, ok, fail, panic, hung}
use watchmaker.Prelude.State.{Ran, M, pure, raise, ◌>>=◌, ◌>>◌}
use watchmaker.Go.Text.{Bytes, codes, equal, split}
use watchmaker.Errors.{Error, sys}
use watchmaker.Elf.{ElfReader}
use watchmaker.Kernel.{Arch, amd64, arm64, Kernel}
use watchmaker.ClockIds.{encode_clk_ids}
use watchmaker.DateParse.Runes.{Tables}
use watchmaker.Offset.{calculate_offset}
use watchmaker.Skew.Config.{new_config}
use watchmaker.Skew.{Skew, get_skew, fork, inject}
use watchmaker.Children.Tree.{get_child_processes}

-- The flags.
pub record Flags : Type 0 where
  pub pid : ℕ
  pub fake_time : Bytes
  pub clock_ids : Bytes

-- What the command reads of its surroundings: the tables of Unicode, the date parser, the clock, the embedded files, the
-- list of processes, and their stat files.
pub record Host : Type 0 where
  pub tables : Tables
  pub parse_date : Bytes → Option ℤ
  pub now : ℤ
  pub later : ℤ
  pub read_elf : ElfReader
  pub read_file : Bytes → Outcome Error Bytes
  pub proc_names : Outcome Error (List Bytes)
  pub stat_file : Bytes → Option Bytes

abbrev pub default_clock_ids : Arch → Bytes
default_clock_ids amd64 = codes "CLOCK_REALTIME"
default_clock_ids arm64 = codes "CLOCK_REALTIME,CLOCK_REALTIME_COARSE"

abbrev pub chosen_clock_ids : Arch → Bytes → Bytes
chosen_clock_ids arch ids = if equal ids [] then default_clock_ids arch else ids

abbrev lift : {A S : Type 0} → Outcome Error A → M Error S A
lift o s = (o, s)

module _ {W : Type 0} (k : Kernel W) (arch : Arch) (h : Host) where
  -- `Inject` of a skew that nothing uses afterwards but for its configuration.
  abbrev pub inject_into : Skew → ℕ → W → Ran Error W Skew
  inject_into s pid w =
      let (r, t) = inject k arch h.read_elf pid (record { world = w; skew = s }) in
      elim r [
        | ok _ ↦ (ok t.skew, t.world)
        | fail e ↦ (fail e, t.world)
        | panic ↦ (panic, t.world)
        | hung ↦ (hung, t.world)
      ]

  -- The body of the loop over the children: an error is logged, and the loop goes on.
  unfoldable pub inject_child : Skew → ℕ → M Error W (Unit {0})
  inject_child s pid w = elim (fork arch h.read_elf h.read_file s) [
    | ok forked ↦
        let (r, t) = inject_into forked pid w in
        elim r [ ok _ ↦ (ok tt, t) | fail e ↦ (ok tt, t) | panic ↦ (panic, t) | hung ↦ (hung, t) ]
    | fail e ↦ (ok tt, w)
    | panic ↦ (panic, w)
    | hung ↦ (hung, w)
  ]

  unfoldable pub inject_children : Skew → List ℕ → M Error W (Unit {0})
  unfolding inject_child
  inject_children s [] = pure tt
  inject_children s (pid ∷ pids) = inject_child s pid >> inject_children s pids

  -- `main`.
  unfoldable pub run : Flags → M Error W (Unit {0})
  unfolding inject_children
  run f = do
    (if f.pid == 0 then raise (sys (codes "pid can't is zero")) else pure tt)
    (if equal f.fake_time [] then raise (sys (codes "faketime can't is empty")) else pure tt)
    offset ← lift (calculate_offset h.tables h.parse_date h.now h.later f.fake_time)
    mask ← lift (encode_clk_ids (split b',' (chosen_clock_ids arch f.clock_ids)))
    skew ← lift (get_skew arch h.read_elf h.read_file (new_config (pos 0) offset mask))
    injected ← inject_into skew f.pid
    pids ← lift (get_child_processes h.proc_names h.stat_file f.pid)
    inject_children injected pids
