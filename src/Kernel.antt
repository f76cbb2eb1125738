-- ===== src/Kernel.antt =====
-- The operating system as the program sees it: the calls of golang.org/x/sys/unix and of os that
-- ptrace_linux.go makes, over a world `W` that the calls change. None of it is code of the
-- repository, so it is a parameter of all that calls it.
pub mod Laws
pub mod Toy
use watchmaker.Prelude.{
  ℕ, ◌+◌, ◌≡◌, refl, List, [], ◌∷◌, ◌++◌, Bool, length, take, drop, replicate, ◌==◌, if◌then◌else◌,
}
use watchmaker.Prelude.State.{M}
use watchmaker.Go.Text.{Bytes}
use watchmaker.Errors.{Error}

-- The two architectures that the repository has files for.
pub data Arch : Type 0 where
  amd64 arm64 : Arch

-- `unix.PtraceRegs`: the registers by number, and the instruction pointer.
pub record Regs : Type 0 where
  pub general : ℕ → ℕ
  pub ip : ℕ

abbrev pub set_general : Regs → ℕ → ℕ → Regs
set_general regs r v = record regs { general = λ q. if q == r then v else regs.general q }

pub record Kernel (W : Type 0) : Type 0 where
  -- `os.ReadDir` of /proc/<pid>/task and `os.ReadFile` of /proc/<pid>/maps
  pub task_names : ℕ → M Error W (List Bytes)
  pub maps_file : ℕ → M Error W Bytes
  -- `unix.PtraceSeize`, `PtraceInterrupt`, `PtraceDetach`; `Wait4` returns the pid it waited for
  pub seize : ℕ → M Error W (Unit {0})
  pub interrupt : ℕ → M Error W (Unit {0})
  pub detach : ℕ → M Error W (Unit {0})
  pub wait4 : ℕ → M Error W ℕ
  -- `getRegs`, `setRegs`, `PtracePeekData`, `PtracePokeData`, `PtraceSingleStep`
  pub get_regs : ℕ → M Error W Regs
  pub set_regs : ℕ → Regs → M Error W (Unit {0})
  pub peek_data : ℕ → ℕ → ℕ → M Error W Bytes
  pub poke_data : ℕ → ℕ → Bytes → M Error W (Unit {0})
  pub single_step : ℕ → M Error W (Unit {0})
  -- `ProcessVMReadv` and `ProcessVMWritev` with one piece of memory
  pub vm_read : ℕ → ℕ → ℕ → M Error W Bytes
  pub vm_write : ℕ → ℕ → Bytes → M Error W (Unit {0})
  -- `os.Getpagesize`; and /proc/sys/kernel/pid_max, which no thread id reaches: the fuel of the
  -- loop over listings
  pub page_size : ℕ
  pub pid_max : ℕ

-- What is left in a buffer that a call has filled from the front.
abbrev pub overlay : Bytes → Bytes → Bytes
overlay buffer bytes = take (length buffer) (bytes ++ drop (length bytes) buffer)
