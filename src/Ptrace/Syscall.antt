-- ===== src/Ptrace/Syscall.antt =====
-- `Syscall` of the two architectures: the registers by their numbers, and the call.
use watchmaker.Prelude.{ℕ, ◌+◌, List, [], ◌∷◌, Option, none, some, ltb, ◌==◌, if◌then◌else◌}
use watchmaker.Prelude.Outcome.{Outcome, ok, fail}
use watchmaker.Prelude.State.{M, pure, raise, ◌>>=◌, ◌>>◌, on_error}
use watchmaker.Go.Text.{Bytes}
use watchmaker.Errors.{Error, wrapped, too_many_arguments}
use watchmaker.Kernel.{Arch, amd64, arm64, Regs, Kernel, set_general}
use watchmaker.Ptrace.Program.{P, call, program, protect, restore, step}

-- On amd64 the registers are numbered as in `unix.PtraceRegsAmd64`.
abbrev pub r10 : ℕ
r10 = 7

abbrev pub r9 : ℕ
r9 = 8

abbrev pub r8 : ℕ
r8 = 9

abbrev pub rax : ℕ
rax = 10

abbrev pub rdx : ℕ
rdx = 12

abbrev pub rsi : ℕ
rsi = 13

abbrev pub rdi : ℕ
rdi = 14

-- Where the number of the system call goes.
abbrev pub number_register : Arch → ℕ
number_register amd64 = rax
number_register arm64 = 8

-- Where argument `index` goes; `none` is "too many arguments for a syscall".
unfoldable pub argument_register : Arch → ℕ → Option ℕ
argument_register amd64 index =
    if index == 0
    then some rdi
    else if index == 1
    then some rsi
    else if index == 2
    then some rdx
    else if index == 3
    then some r10
    else if index == 4
    then some r8
    else if index == 5
    then some r9
    else none
argument_register arm64 index = if ltb 6 index then none else some index

-- Where the result is found.
abbrev pub result_register : Arch → ℕ
result_register amd64 = rax
result_register arm64 = 0

-- `syscall` and `svc #0`, as little-endian bytes.
abbrev pub syscall_code : Arch → Bytes
syscall_code amd64 = 0x0f ∷ 0x05 ∷ []
syscall_code arm64 = 0x01 ∷ 0x00 ∷ 0x00 ∷ 0xd4 ∷ []

-- The loop over the arguments, from argument `index` on.
unfoldable pub load_arguments : Arch → Regs → ℕ → List ℕ → Outcome Error Regs
load_arguments arch regs index [] = ok regs
load_arguments arch regs index (arg ∷ args) = elim (argument_register arch index) [
  | none ↦ fail too_many_arguments
  | some r ↦ load_arguments arch (set_general regs r arg) (index + 1) args
]

abbrev pub lift : {A S : Type 0} → Outcome Error A → M Error S A
lift o s = (o, s)

module _ {W : Type 0} (k : Kernel W) (arch : Arch) where
  -- `Syscall`. An error before the last step leaves the registers and the code as they are then.
  unfoldable pub syscall : ℕ → List ℕ → P W ℕ
  unfolding load_arguments argument_register
  syscall number args = do
    protect k
    p ← program
    regs ← call (k.get_regs p.pid)
    loaded ← lift (load_arguments arch (set_general regs (number_register arch) number) 0 args)
    call (k.set_regs p.pid loaded)
    on_error (call (k.poke_data p.pid p.backup_regs.ip (syscall_code arch)))
        (λ e. raise (wrapped e))
    step k
    after ← call (k.get_regs p.pid)
    restore k
    pure (after.general (result_register arch))
