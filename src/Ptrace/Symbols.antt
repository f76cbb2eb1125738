-- ===== src/Ptrace/Symbols.antt =====
-- `FindSymbolInEntry`, and the jump that is written over the function it finds.
use watchmaker.Prelude.{
  ℕ, ◌+◌, ◌-◌, ◌%◌, List, [], ◌∷◌, ◌++◌, Bool, false, ◌&&◌, ◌||◌, Option, none, some, if◌then◌else◌,
}
use watchmaker.Prelude.Outcome.{Outcome, ok, fail}
use watchmaker.Prelude.State.{◌>>=◌}
use watchmaker.Go.Text.{Bytes, codes, equal}
use watchmaker.Go.Words.{two_64}
use watchmaker.Errors.{Error, no_symbol}
use watchmaker.Elf.{Prog, Symbol, ElfReader}
use watchmaker.Kernel.{Arch, amd64, arm64, Kernel}
use watchmaker.Maps.{Entry}
use watchmaker.Ptrace.Program.{P}
use watchmaker.Ptrace.Syscall.{lift}
use watchmaker.Ptrace.Memory.{le_bytes, get_lib_buffer, ptrace_write_slice}

-- `prog.Vaddr - prog.Off` of the first segment that is loaded.
unfoldable pub load_offset : List Prog → ℕ
load_offset [] = 0
load_offset (prog ∷ progs) =
    if prog.is_load then (prog.vaddr + two_64 - prog.off) % two_64 else load_offset progs

abbrev pub is_arm64 : Arch → Bool
is_arm64 amd64 = false
is_arm64 arm64 = Bool.true

-- The name itself, or on arm64 with the prefix of the kernel.
unfoldable pub is_named : Arch → Bytes → Symbol → Bool
unfolding equal
is_named arch name s =
    equal s.name name || is_arm64 arch && equal s.name (codes "__kernel_" ++ name)

-- `entry.StartAddress + (offset - loadOffset)`.
abbrev pub location : ℕ → ℕ → Symbol → ℕ
location start loaded s = (start + (s.value + two_64 - loaded)) % two_64

-- The loop over the symbols.
unfoldable pub find_symbol : Arch → Bytes → ℕ → ℕ → List Symbol → Option (ℕ × ℕ)
unfolding is_named
find_symbol arch name start loaded [] = none
find_symbol arch name start loaded (s ∷ ss) =
    if is_named arch name s
    then some (location start loaded s, s.size)
    else find_symbol arch name start loaded ss

abbrev pub or_no_symbol : Bytes → Option (ℕ × ℕ) → Outcome Error (ℕ × ℕ)
or_no_symbol name none = fail (no_symbol name)
or_no_symbol name (some found) = ok found

-- `endian.PutUint32` and `PutUint64` into 16 bytes that are zero.
unfoldable pub jump_code : Arch → ℕ → Bytes
jump_code amd64 target = 0x48 ∷ 0xb8 ∷ (le_bytes 8 target ++ 0xff ∷ 0xe0 ∷ 0 ∷ 0 ∷ 0 ∷ 0 ∷ [])
jump_code arm64 target = le_bytes 4 0x5800_0049 ++ (le_bytes 4 0xd61f_0120 ++ le_bytes 8 target)

module _ {W : Type 0} (k : Kernel W) (arch : Arch) (read_elf : ElfReader) where
  -- `FindSymbolInEntry`.
  unfoldable pub find_symbol_in_entry : Bytes → Entry → P W (ℕ × ℕ)
  unfolding get_lib_buffer find_symbol load_offset
  find_symbol_in_entry name e = do
    buffer ← get_lib_buffer k e
    file ← lift (read_elf buffer)
    symbols ← lift file.dynamic_symbols
    lift
        (or_no_symbol name (find_symbol arch name e.start_address (load_offset file.progs) symbols))

module _ {W : Type 0} (k : Kernel W) (arch : Arch) where
  -- `JumpToFakeFunc`.
  unfoldable pub jump_to_fake_func : ℕ → ℕ → P W (Unit {0})
  unfolding jump_code ptrace_write_slice
  jump_to_fake_func origin target = ptrace_write_slice k origin (jump_code arch target)
