-- ===== src/Kernel/Laws.antt =====
-- What the program relies on of the kernel's documented behaviour (ptrace(2),
-- process_vm_readv(2)), seen through the memory and the registers of the traced process `pid`.
-- An error leaves it open what has changed, but for calls that never write, and for a poke, which
-- changes no byte that it does not name.
pub mod Patches
use watchmaker.Prelude.{
  ℕ, zero, suc, ◌+◌, ◌-◌, ◌≤◌, ◌<◌, ◌≡◌, ◌⊎◌, List, [], ◌∷◌, ◌++◌, Bool, false, ◌&&◌, ltb, leb,
  if◌then◌else◌, length, get_or,
}
use watchmaker.Prelude.Outcome.{Outcome, ok, is_ok}
use watchmaker.Prelude.State.{M}
use watchmaker.Go.Text.{Bytes}
use watchmaker.Errors.{Error}
use watchmaker.Kernel.{Regs, Kernel}

abbrev pub Memory : Type 0
Memory = ℕ → ℕ

-- The bytes from `addr` on replaced by `bytes`.
abbrev pub patch : Memory → ℕ → Bytes → Memory
patch m addr bytes x =
    if leb addr x && ltb x (addr + length bytes) then get_or bytes (x - addr) 0 else m x

-- The `size` bytes from `addr` on.
abbrev pub slice : Memory → ℕ → ℕ → Bytes
slice m addr zero = []
slice m addr (suc size) = m addr ∷ slice m (addr + 1) size

pub record View (W : Type 0) : Type 0 where
  pub memory : W → Memory
  pub regs : W → Regs

-- The call leaves memory and registers alone, whatever it returns.
pub record Keeps {W A : Type 0} (v : View W) (m : M Error W A) : Type 0 where
  pub memory : (w : W) → v.memory (m w).1 ≡ v.memory w
  pub regs : (w : W) → v.regs (m w).1 ≡ v.regs w

pub record Laws {W : Type 0} (k : Kernel W) (pid : ℕ) (v : View W) : Type 0 where
  pub get_regs : (w : W) (r : Regs) → (k.get_regs pid w).0 ≡ ok r → r ≡ v.regs w
  pub get_regs_keeps : Keeps v (k.get_regs pid)
  pub set_regs :
      (w : W) (r : Regs) → (k.set_regs pid r w).0 ≡ ok tt → v.regs (k.set_regs pid r w).1 ≡ r
  pub set_regs_keeps : (w : W) (r : Regs) → v.memory (k.set_regs pid r w).1 ≡ v.memory w
  pub peek :
      (w : W) (addr n : ℕ) (bytes : Bytes)
      → (k.peek_data pid addr n w).0 ≡ ok bytes
      → bytes ≡ slice (v.memory w) addr n
  pub peek_keeps : (addr n : ℕ) → Keeps v (k.peek_data pid addr n)
  -- A poke of at most eight bytes is done whole; if it fails, it has written some of the bytes at
  -- most, and no others.
  pub poke :
      (w : W) (addr : ℕ) (bytes : Bytes)
      → length bytes ≤ 8
      → (k.poke_data pid addr bytes w).0 ≡ ok tt
      → v.memory (k.poke_data pid addr bytes w).1 ≡ patch (v.memory w) addr bytes
  pub poke_fails :
      (w : W) (addr : ℕ) (bytes : Bytes)
      → length bytes ≤ 8
      → is_ok (k.poke_data pid addr bytes w).0 ≡ false
      → (x : ℕ)
      → (v.memory (k.poke_data pid addr bytes w).1 x ≡ v.memory w x)
        ⊎ (v.memory (k.poke_data pid addr bytes w).1 x ≡ patch (v.memory w) addr bytes x)
  pub poke_keeps :
      (w : W) (addr : ℕ) (bytes : Bytes) → v.regs (k.poke_data pid addr bytes w).1 ≡ v.regs w
  -- One piece of memory is transferred whole, or there is an error.
  pub vm_read :
      (w : W) (addr n : ℕ) (bytes : Bytes)
      → (k.vm_read pid addr n w).0 ≡ ok bytes
      → bytes ≡ slice (v.memory w) addr n
  pub vm_read_keeps : (addr n : ℕ) → Keeps v (k.vm_read pid addr n)
  pub vm_write :
      (w : W) (addr : ℕ) (bytes : Bytes)
      → (k.vm_write pid addr bytes w).0 ≡ ok tt
      → v.memory (k.vm_write pid addr bytes w).1 ≡ patch (v.memory w) addr bytes
