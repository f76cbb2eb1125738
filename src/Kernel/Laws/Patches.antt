-- ===== src/Kernel/Laws/Patches.antt =====
-- Patches and slices of a memory.
use mathlib.Core.Path.{fun_ext}
use watchmaker.Prelude.{
  ℕ, zero, suc, ◌+◌, ◌-◌, ◌≤◌, ◌<◌, ◌≡◌, refl, ap, ◌∙◌, [], ◌∷◌, ◌++◌, ◌&&◌, ◌⊎◌, inl, inr,
  Bool-cases, ltb, leb, arith, if◌then◌else◌, length, length-append, get_or,
}
use watchmaker.Go.Text.{Bytes}
use watchmaker.Kernel.Laws.{Memory, patch, slice}

pub get_or-append :
    (xs ys : Bytes) (i : ℕ)
    → get_or (xs ++ ys) i 0
      ≡ (if ltb i (length xs) then get_or xs i 0 else get_or ys (i - length xs) 0)
get_or-append [] ys i = ground arith
get_or-append (x ∷ xs) ys zero = ground arith
get_or-append (x ∷ xs) ys (suc i) = ground (arith, get_or-append xs ys i)

-- Two patches side by side are one.
pub patch-patch :
    (m : Memory) (addr : ℕ) (xs ys : Bytes)
    → patch (patch m addr xs) (addr + length xs) ys ≡ patch m addr (xs ++ ys)
patch-patch m addr xs ys =
    fun_ext λ x. ground (arith, get_or-append xs ys (x - addr), length-append xs ys)

pub patch-nil : (m : Memory) (addr : ℕ) → patch m addr [] ≡ m
patch-nil m addr = fun_ext λ x. ground arith

pub length-slice : (m : Memory) (addr n : ℕ) → length (slice m addr n) ≡ n
length-slice m addr zero = refl
length-slice m addr (suc n) = ap suc (length-slice m (addr + 1) n)

-- A slice inside a memory that agrees there.
pub slice-congr :
    (m m' : Memory) (addr n : ℕ)
    → ((x : ℕ) → addr ≤ x → x < addr + n → m x ≡ m' x)
    → slice m addr n ≡ slice m' addr n
slice-congr m m' addr zero h = refl
slice-congr m m' addr (suc n) h =
    ground (arith, h addr, slice-congr m m' (addr + 1) n (λ x p q. h x (omega arith) (omega arith)))

-- A memory that holds `bytes` from `addr` on.
pub slice_ext :
    (m : Memory) (addr : ℕ) (bytes : Bytes)
    → ((i : ℕ) → i < length bytes → m (addr + i) ≡ get_or bytes i 0)
    → slice m addr (length bytes) ≡ bytes
slice_ext m addr [] h = refl
slice_ext m addr (b ∷ bs) h =
    ground
      (arith, h 0, slice_ext m (addr + 1) bs (λ i p. ap m (shift addr i) ∙ h (suc i) (omega arith)))
  where
    shift : (a i : ℕ) → a + 1 + i ≡ a + suc i
    shift a i = omega arith

-- What was written is read back.
pub slice-patch :
    (m : Memory) (addr : ℕ) (bytes : Bytes) → slice (patch m addr bytes) addr (length bytes) ≡ bytes
slice-patch m addr bytes = slice_ext (patch m addr bytes) addr bytes (λ i p. ground arith)

pub get_or-slice : (m : Memory) (addr n i : ℕ) → i < n → get_or (slice m addr n) i 0 ≡ m (addr + i)
get_or-slice m addr zero i h = absurd (omega arith)
get_or-slice m addr (suc n) zero h = ap m (omega arith)
get_or-slice m addr (suc n) (suc i) h =
    get_or-slice m (addr + 1) n i (omega arith) ∙ ap m (omega arith)

-- A patch elsewhere does not show in a slice.
pub slice-patch_apart :
    (m : Memory) (a n b : ℕ) (bytes : Bytes)
    → (a + n ≤ b) ⊎ (b + length bytes ≤ a)
    → slice (patch m b bytes) a n ≡ slice m a n
slice-patch_apart m a n b bytes h = slice-congr (patch m b bytes) m a n (λ x p q. ground arith)

-- Writing back what stood there undoes a patch of the same size.
pub patch-slice :
    (m : Memory) (addr : ℕ) (bytes : Bytes)
    → patch (patch m addr bytes) addr (slice m addr (length bytes)) ≡ m
patch-slice m addr bytes = fun_ext λ x.
    elim (Bool-cases (leb addr x && ltb x (addr + length bytes))) [
      | inl inside ↦ ground (
        arith,
        length-slice m addr (length bytes),
        get_or-slice m addr (length bytes) (x - addr) (ground arith),
        ap m (back x (ground arith)),
      )
      | inr outside ↦ ground (arith, length-slice m addr (length bytes))
    ]
  where
    back : (x : ℕ) → addr ≤ x → addr + (x - addr) ≡ x
    back x h = omega arith

pub slice-patch_of_eq :
    (m : Memory) (addr : ℕ) (bytes : Bytes) (n : ℕ)
    → length bytes ≡ n
    → slice (patch m addr bytes) addr n ≡ bytes
slice-patch_of_eq m addr bytes n e = rw (← e) (slice-patch m addr bytes)
