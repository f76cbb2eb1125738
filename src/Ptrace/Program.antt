-- ===== src/Ptrace/Program.antt =====
-- `TracedProgram`, with `Protect`, `Restore`, `Wait`, `Step` and `Detach`.
use watchmaker.Prelude.{ℕ, List, [], ◌∷◌, Bool, false, ◌==◌, if◌then◌else◌, length}
use watchmaker.Prelude.State.{M, pure, raise, ◌>>=◌, ◌>>◌, on_error, zoom}
use watchmaker.Go.Text.{Bytes, codes, contains}
use watchmaker.Errors.{Error, sys, wait_pid}
use watchmaker.Kernel.{Arch, amd64, arm64, Regs, Kernel, overlay}
use watchmaker.Maps.{Entry}

pub record TracedProgram : Type 0 where
  pub pid : ℕ
  pub tids : List ℕ
  pub entries : List Entry
  pub backup_regs : Regs
  pub backup_code : Bytes

-- The world and the traced program.
pub record Session (W : Type 0) : Type 0 where
  pub world : W
  pub program : TracedProgram

abbrev pub session : {W : Type 0} → W → TracedProgram → Session W
session w p = record { world = w; program = p }

abbrev pub P : Type 0 → Type 0 → Type 0
P W A = M Error (Session W) A

-- The size of the instruction that makes a system call.
abbrev pub instr_size : Arch → ℕ
instr_size amd64 = 2
instr_size arm64 = 4

module _ {W : Type 0} where
  -- A call of the operating system.
  abbrev pub call : {A : Type 0} → M Error W A → P W A
  call = zoom (λ s. s.world) (λ s w. record s { world = w })

  abbrev pub program : P W TracedProgram
  program s = pure s.program s

  abbrev pub save_regs : Regs → P W (Unit {0})
  save_regs regs s = pure tt (record s { program = record s.program { backup_regs = regs } })

  abbrev pub save_code : Bytes → P W (Unit {0})
  save_code code s = pure tt (record s { program = record s.program { backup_code = code } })

module _ {W : Type 0} (k : Kernel W) where
  -- `waitPid`.
  unfoldable pub wait_for : ℕ → M Error W (Unit {0})
  wait_for pid = do wpid ← k.wait4 pid; if wpid == pid then pure tt else raise (wait_pid wpid)

  -- `Protect`.
  unfoldable pub protect : P W (Unit {0})
  protect = do
    p ← program
    regs ← call (k.get_regs p.pid)
    save_regs regs
    code ← call (k.peek_data p.pid regs.ip (length p.backup_code))
    save_code (overlay p.backup_code code)

  -- `Restore`.
  unfoldable pub restore : P W (Unit {0})
  restore = do
    p ← program
    call (k.set_regs p.pid p.backup_regs)
    call (k.poke_data p.pid p.backup_regs.ip p.backup_code)

  -- `Step`, with `Wait`.
  unfoldable pub step : P W (Unit {0})
  unfolding wait_for
  step = do p ← program; call (k.single_step p.pid); call (wait_for p.pid)

-- `strings.Contains(err.Error(), "no such process")` on an error of `PtraceDetach`.
unfoldable pub is_gone : Error → Bool
unfolding contains
is_gone (sys text) = contains (codes "no such process") text
is_gone _ = false

module _ {W : Type 0} (k : Kernel W) where
  -- The loop of `Detach`: the first error that is not a missing process ends it.
  unfoldable pub detach_each : List ℕ → M Error W (Unit {0})
  detach_each [] = pure tt
  detach_each (tid ∷ tids) =
      on_error (k.detach tid) (λ e. if is_gone e then pure tt else raise e) >> detach_each tids

  -- `Detach`.
  unfoldable pub detach : P W (Unit {0})
  unfolding detach_each is_gone
  detach = do p ← program; call (detach_each p.tids)
