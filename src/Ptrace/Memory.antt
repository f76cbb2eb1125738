-- ===== src/Ptrace/Memory.antt =====
-- Reading and writing the memory of the traced program, and `Mmap`.
use watchmaker.Prelude.{
  ℕ, zero, suc, ◌+◌, ◌-◌, ◌*◌, ◌/◌, ◌%◌, ◌^◌, ◌||◌, [], ◌∷◌, true, false, ltb, leb, ◌==◌, bit_and,
  if◌then◌else◌, length, take, drop, replicate,
}
use watchmaker.Prelude.State.{pure, raise, crash, ◌>>=◌, ◌>>◌, on_error}
use watchmaker.Go.Text.{Bytes, codes}
use watchmaker.Go.Words.{two_64}
use watchmaker.Errors.{wrapped, mmap_null, mmap_code, mmap_failed, padding}
use watchmaker.Kernel.{Arch, Kernel, overlay}
use watchmaker.Maps.{Entry, entry}
use watchmaker.Ptrace.Program.{P, call, program}
use watchmaker.Ptrace.Syscall.{syscall}

abbrev pub ptr_size : ℕ
ptr_size = 8

-- The largest piece of memory that Go's runtime allocates on the two architectures.
abbrev pub max_alloc : ℕ
max_alloc = 2 ^ 48

abbrev pub zeros : ℕ → Bytes
zeros n = replicate n 0

-- `alignBuffer` of a buffer that is not nil.
unfoldable pub aligned_size : ℕ → ℕ
aligned_size n = let size = n / ptr_size * ptr_size in if ltb size n then size + ptr_size else size

unfoldable pub align_buffer : Bytes → Bytes
unfolding aligned_size
align_buffer buffer = overlay (zeros (aligned_size (length buffer))) buffer

-- `binary.LittleEndian.PutUint64`, and its inverse.
abbrev pub le_bytes : ℕ → ℕ → Bytes
le_bytes zero v = []
le_bytes (suc n) v = (v % 256) ∷ le_bytes n (v / 256)

abbrev pub of_le_bytes : Bytes → ℕ
of_le_bytes [] = 0
of_le_bytes (b ∷ bs) = b + 256 * of_le_bytes bs

module _ {W : Type 0} (k : Kernel W) where
  -- `ReadSlice`: `&buffer[0]` is out of range for a size of 0, and `make` of a size that the runtime
  -- does not allocate panics.
  unfoldable pub read_slice : ℕ → ℕ → P W Bytes
  read_slice addr size = if size == 0 || ltb max_alloc size then crash else do
    p ← program
    bytes ← call (k.vm_read p.pid addr size)
    pure (overlay (zeros size) bytes)

  -- `WriteSlice`: so it is for an empty buffer.
  unfoldable pub write_slice : ℕ → Bytes → P W (Unit {0})
  write_slice addr [] = crash
  write_slice addr (b ∷ bs) = do p ← program; call (k.vm_write p.pid addr (b ∷ bs))

  -- The loop of `PtraceWriteSlice`, on fuel.
  unfoldable pub poke_loop : ℕ → ℕ → Bytes → ℕ → P W (Unit {0})
  poke_loop zero addr buffer wrote = pure tt
  poke_loop (suc fuel) addr buffer wrote = elim (leb (wrote + ptr_size) (length buffer)) [
    | false ↦ pure tt
    | true ↦ do
      p ← program
      on_error
          (call (k.poke_data p.pid ((addr + wrote) % two_64) (take ptr_size (drop wrote buffer))))
          (λ e. raise (wrapped e))
      poke_loop fuel addr buffer (wrote + ptr_size)
  ]

  -- `PtraceWriteSlice`. Each round writes eight bytes, so the buffer's length is fuel enough.
  unfoldable pub ptrace_write_slice : ℕ → Bytes → P W (Unit {0})
  unfolding poke_loop align_buffer
  ptrace_write_slice addr buffer =
      let aligned = align_buffer buffer in poke_loop (length aligned) addr aligned 0

  -- `WriteUint64ToAddr`.
  unfoldable pub write_uint64 : ℕ → ℕ → P W (Unit {0})
  unfolding write_slice
  write_uint64 addr value = write_slice addr (le_bytes 8 value)

  -- `GetLibBuffer`.
  unfoldable pub get_lib_buffer : Entry → P W Bytes
  unfolding read_slice
  get_lib_buffer e =
      if ltb 0 e.padding_size
      then raise padding
      else read_slice e.start_address ((e.end_address + two_64 - e.start_address) % two_64)

-- `(length + pageSize - 1) & ^(pageSize - 1)`, in uint64.
unfoldable pub align_page : ℕ → ℕ → ℕ
align_page page n =
    bit_and ((n + page + two_64 - 1) % two_64) (two_64 - 1 - (page + two_64 - 1) % two_64)

-- PROT_READ|PROT_WRITE|PROT_EXEC and MAP_ANON|MAP_PRIVATE.
abbrev pub prot_rwx : ℕ
prot_rwx = 7

abbrev pub map_private_anon : ℕ
map_private_anon = 0x22

abbrev pub sys_mmap : Arch → ℕ
sys_mmap Arch.amd64 = 9
sys_mmap Arch.arm64 = 222

module _ {W : Type 0} (k : Kernel W) (arch : Arch) where
  -- `tryMmap`.
  unfoldable pub try_mmap : (addr len prot flags fd offset : ℕ) → P W ℕ
  unfolding syscall
  try_mmap addr len prot flags fd offset = do
    result ← syscall k arch (sys_mmap arch) (addr ∷ len ∷ prot ∷ flags ∷ fd ∷ offset ∷ [])
    if result == 0
        then raise mmap_null
        else (if ltb 0xffff_ffff_0000_0000 result then raise (mmap_code result) else pure result)

  -- `Mmap`: a second call for two pages at least, if the first fails. `tryMmap` returns no 0
  -- without an error.
  unfoldable pub mmap : ℕ → ℕ → P W ℕ
  unfolding try_mmap align_page
  mmap len fd =
      let aligned = align_page k.page_size len in
      let larger = if ltb aligned (2 * k.page_size) then 2 * k.page_size else aligned in
      on_error (try_mmap 0 aligned prot_rwx map_private_anon fd 0)
        λ _. on_error (try_mmap 0 larger prot_rwx map_private_anon fd 0) λ _. raise mmap_failed

  -- `MmapSlice`.
  unfoldable pub mmap_slice : Bytes → P W Entry
  unfolding mmap write_slice
  mmap_slice slice = do
    addr ← mmap (length slice) 0
    write_slice k addr slice
    pure (entry addr ((addr + length slice) % two_64) (codes "rwxp") 0 [])
