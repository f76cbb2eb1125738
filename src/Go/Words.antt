-- ===== src/Go/Words.antt =====
-- Go's 64-bit integers. A `uint64` is a number below 2 ^ 64; an `int64` is an integer that every
-- operation wraps into its range.
use watchmaker.Prelude.{ℕ, ◌-◌, ◌%◌, ◌<◌, ◌≤◌, ◌≡◌, arith, ltb, if◌then◌else◌}
use watchmaker.Prelude.Int.{ℤ, pos, negsuc, pos_part, neg_part}

abbrev pub two_63 : ℕ
two_63 = 0x8000_0000_0000_0000

abbrev pub two_64 : ℕ
two_64 = 0x1_0000_0000_0000_0000

-- `uint64(z)`.
unfoldable pub uint64 : ℤ → ℕ
uint64 (pos n) = n % two_64
uint64 (negsuc n) = two_64 - 1 - n % two_64

-- `int64(w)` of a `uint64`.
unfoldable pub int64 : ℕ → ℤ
int64 w = if ltb w two_63 then pos w else negsuc (two_64 - 1 - w)

abbrev pub wrap64 : ℤ → ℤ
wrap64 z = int64 (uint64 z)

abbrev pub IsInt64 : ℤ → Type 0
IsInt64 z = (neg_part z ≤ two_63) × (pos_part z < two_63)

pub uint64-lt : (z : ℤ) → uint64 z < two_64
unfolding uint64
uint64-lt (pos n) = omega arith
uint64-lt (negsuc n) = omega arith

-- The conversion to `uint64` loses nothing of an `int64`.
pub int64-uint64 : (z : ℤ) → IsInt64 z → int64 (uint64 z) ≡ z
unfolding uint64 int64
int64-uint64 (pos n) h = ground arith
int64-uint64 (negsuc n) h = ground arith

pub int64-IsInt64 : (w : ℕ) → w < two_64 → IsInt64 (int64 w)
unfolding int64
int64-IsInt64 w h = ground arith
