-- ===== src/ClockIds.antt =====
-- encode_clk_ids.go: the clock ids of the command line as a mask.
pub mod Laws
mod Tests
use watchmaker.Prelude.{
  ℕ, suc, ◌^◌, ◌≡◌, Bool, ◌||◌, false, List, [], ◌∷◌, Option, none, some, bit_or, if◌then◌else◌,
}
use watchmaker.Prelude.Outcome.{Outcome, ok, fail}
use watchmaker.Go.Text.{Bytes, codes, equal}
use watchmaker.Errors.{Error, unknown_clock_id}

-- The `switch` on one id: the digit that it sets, or the default case.
pub clock_bit : Bytes → Option ℕ
clock_bit id =
    if equal id (codes "CLOCK_REALTIME")
    then some 0
    else if equal id (codes "CLOCK_MONOTONIC")
    then some 1
    else if equal id (codes "CLOCK_PROCESS_CPUTIME_ID")
    then some 2
    else if equal id (codes "CLOCK_THREAD_CPUTIME_ID")
    then some 3
    else if equal id (codes "CLOCK_MONOTONIC_RAW")
    then some 4
    else if equal id (codes "CLOCK_REALTIME_COARSE")
    then some 5
    else if equal id (codes "CLOCK_MONOTONIC_COARSE")
    then some 6
    else if equal id (codes "CLOCK_BOOTTIME")
    then some 7
    else if equal id (codes "CLOCK_REALTIME_ALARM")
    then some 8
    else if equal id (codes "CLOCK_BOOTTIME_ALARM")
    then some 9
    else none

-- The loop, with the mask so far.
pub encode_from : ℕ → List Bytes → Outcome Error ℕ
encode_from mask [] = ok mask
encode_from mask (id ∷ ids) = elim (clock_bit id) [
  | none ↦ fail (unknown_clock_id id)
  | some k ↦ encode_from (bit_or mask (2 ^ k)) ids
]

-- `EncodeClkIds`.
unfoldable pub encode_clk_ids : List Bytes → Outcome Error ℕ
unfolding encode_from clock_bit
encode_clk_ids = encode_from 0
