-- ===== src/ClockIds/Tests.antt =====
-- `EncodeClkIds` at the ids of the command line's help.
use watchmaker.Prelude.{ℕ, ◌<◌, ◌≡◌, refl, List, [], ◌∷◌, arith}
use watchmaker.Prelude.Bits.{bit}
use watchmaker.Prelude.Outcome.{ok, fail}
use watchmaker.Go.Text.{Bytes, codes, equal}
use watchmaker.Errors.{unknown_clock_id}
use watchmaker.ClockIds.{encode_clk_ids}
use watchmaker.ClockIds.Laws.{
  as_digit, requests, first_unknown, index_from, encode_clk_ids-requests, encode_clk_ids-fail,
  encode_clk_ids-congr,
}

abbrev arm_ids : List Bytes
arm_ids = codes "CLOCK_REALTIME" ∷ codes "CLOCK_REALTIME_COARSE" ∷ []

abbrev swapped : List Bytes
swapped = codes "CLOCK_REALTIME_COARSE" ∷ codes "CLOCK_REALTIME" ∷ codes "CLOCK_REALTIME" ∷ []

abbrev misspelt : List Bytes
misspelt = codes "CLOCK_REALTIME" ∷ codes "CLOCK_REAL" ∷ []

mask_of_arm_ids : encode_clk_ids arm_ids ≡ ok 33
unfolding encode_clk_ids equal
mask_of_arm_ids = refl

encode_clk_ids-requests_example :
    (m : ℕ) × (encode_clk_ids arm_ids ≡ ok m)
    × (m < 1024)
    × ((k : ℕ) → bit k m ≡ as_digit (requests k arm_ids))
unfolding first_unknown index_from equal
encode_clk_ids-requests_example = encode_clk_ids-requests arm_ids refl

encode_clk_ids-fail_example : encode_clk_ids misspelt ≡ fail (unknown_clock_id (codes "CLOCK_REAL"))
unfolding first_unknown index_from equal
encode_clk_ids-fail_example = encode_clk_ids-fail misspelt (codes "CLOCK_REAL") refl

same_requests : (k : ℕ) → requests k arm_ids ≡ requests k swapped
unfolding requests index_from equal
same_requests k = ground arith

encode_clk_ids-congr_example : encode_clk_ids arm_ids ≡ encode_clk_ids swapped
unfolding first_unknown index_from equal
encode_clk_ids-congr_example = encode_clk_ids-congr arm_ids swapped refl refl same_requests
