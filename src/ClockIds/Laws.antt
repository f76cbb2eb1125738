-- ===== src/ClockIds/Laws.antt =====
-- `EncodeClkIds` against the table of clocks of uapi/linux/time.h.
use native.Mathlib.Nat.{pow-le-pow_right}
use watchmaker.Prelude.{
  ℕ, ◌+◌, ◌^◌, ◌<◌, ◌≡◌, inl, inr, refl, sym, ap, ◌∙◌, Bool, true, false, ◌||◌, List, [], ◌∷◌,
  Option, none, some, bit_or, arith, ◌==◌, if◌then◌else◌, Option-cases, max,
}
use watchmaker.Prelude.Bits.{bit, bit-bit_or, bit-zero, bit-two_pow, bit-le, bit_or-lt, eq_of_bits}
use watchmaker.Prelude.Outcome.{ok, fail}
use watchmaker.Go.Text.{Bytes, codes, equal}
use watchmaker.Errors.{unknown_clock_id}
use watchmaker.ClockIds.{clock_bit, encode_from, encode_clk_ids}

-- The kernel's names of the clocks, by number.
abbrev pub clock_names : List Bytes
clock_names =
    codes "CLOCK_REALTIME"
    ∷ codes "CLOCK_MONOTONIC"
    ∷ codes "CLOCK_PROCESS_CPUTIME_ID"
    ∷ codes "CLOCK_THREAD_CPUTIME_ID"
    ∷ codes "CLOCK_MONOTONIC_RAW"
    ∷ codes "CLOCK_REALTIME_COARSE"
    ∷ codes "CLOCK_MONOTONIC_COARSE"
    ∷ codes "CLOCK_BOOTTIME"
    ∷ codes "CLOCK_REALTIME_ALARM"
    ∷ codes "CLOCK_BOOTTIME_ALARM"
    ∷ []

-- The number of a clock's name in a table that starts at number `k`.
unfoldable pub index_from : ℕ → List Bytes → Bytes → Option ℕ
index_from k [] id = none
index_from k (n ∷ ns) id = if equal id n then some k else index_from (k + 1) ns id

abbrev pub clock_number : Bytes → Option ℕ
clock_number = index_from 0 clock_names

pub clock_bit-clock_number : (id : Bytes) → clock_bit id ≡ clock_number id
unfolding clock_bit index_from
clock_bit-clock_number id = refl

-- Some id of the list names clock `k`.
unfoldable pub requests : ℕ → List Bytes → Bool
requests k [] = false
requests k (id ∷ ids) = elim (clock_number id) [ none ↦ false | some j ↦ j == k ] || requests k ids

abbrev pub as_digit : Bool → ℕ
as_digit true = 1
as_digit false = 0

-- The first id that names no clock.
unfoldable pub first_unknown : List Bytes → Option Bytes
first_unknown [] = none
first_unknown (id ∷ ids) = elim (clock_number id) [ none ↦ some id | some k ↦ first_unknown ids ]

first_unknown-cons :
    (x : Bytes) (ids : List Bytes) {k : ℕ}
    → clock_number x ≡ some k
    → first_unknown (x ∷ ids) ≡ first_unknown ids
unfolding first_unknown
first_unknown-cons x ids e = rw (e, first_unknown)

encode_from-fail :
    (mask : ℕ) (ids : List Bytes) (id : Bytes)
    → first_unknown ids ≡ some id
    → encode_from mask ids ≡ fail (unknown_clock_id id)
unfolding encode_from first_unknown
encode_from-fail mask [] id h = cc
encode_from-fail mask (x ∷ ids) id h = elim (Option-cases (clock_number x)) [
  | inl e ↦ ground (arith, clock_bit-clock_number x)
  | inr (k, e) ↦
      let known = clock_bit-clock_number x ∙ e in
      rw (known, encode_from)
        (encode_from-fail (bit_or mask (2 ^ k)) ids id (sym (first_unknown-cons x ids e) ∙ h))
]

-- What the loop must have computed from `mask`.
record Encodes (mask : ℕ) (ids : List Bytes) (m : ℕ) : Type 0 where
  returns : encode_from mask ids ≡ ok m
  digits : (k : ℕ) → bit k m ≡ max (bit k mask) (as_digit (requests k ids))

step-digit :
    (k j mask : ℕ) (ids : List Bytes) (id : Bytes)
    → clock_number id ≡ some j
    → max (bit k (bit_or mask (2 ^ j))) (as_digit (requests k ids))
      ≡ max (bit k mask) (as_digit (requests k (id ∷ ids)))
unfolding requests
step-digit k j mask ids id e =
    ground (arith, bit-bit_or k mask (2 ^ j), bit-two_pow k j, bit-le k mask)

requests-nil : (k mask : ℕ) → bit k mask ≡ max (bit k mask) (as_digit (requests k []))
unfolding requests
requests-nil k mask = omega arith

encode_from-Encodes :
    (mask : ℕ) (ids : List Bytes) → first_unknown ids ≡ none → (m : ℕ) × Encodes mask ids m
unfolding encode_from
encode_from-Encodes mask [] h = (mask, record { returns = refl; digits = λ k. requests-nil k mask })
encode_from-Encodes mask (x ∷ ids) h = elim (Option-cases (clock_number x)) [
  | inl e ↦ absurd (unfold first_unknown in ground arith)
  | inr (j, e) ↦
      let known = clock_bit-clock_number x ∙ e in
      let (m, rest) =
        encode_from-Encodes (bit_or mask (2 ^ j)) ids (sym (first_unknown-cons x ids e) ∙ h) in
      (
        m,
        record {
          returns = rw (known, encode_from) rest.returns;
          digits = λ k. rest.digits k ∙ step-digit k j mask ids x e;
        },
      )
]

clock_bit-lt : (id : Bytes) {j : ℕ} → clock_bit id ≡ some j → j < 10
unfolding clock_bit
clock_bit-lt id e = ground arith

clock_bit-small : (id : Bytes) {j : ℕ} → clock_bit id ≡ some j → 2 ^ j < 1024
unfolding clock_bit
clock_bit-small id {j} e = omega (
  arith,
  pow-le-pow_right {n = 2} (omega arith) {i = j} {j = 9} (omega (arith, clock_bit-lt id e)),
)

encode_from-lt :
    (mask : ℕ) (ids : List Bytes) {m : ℕ} → encode_from mask ids ≡ ok m → mask < 1024 → m < 1024
unfolding encode_from
encode_from-lt mask [] e h = ground arith
encode_from-lt mask (x ∷ ids) e h = elim (Option-cases (clock_bit x)) [
  | inl miss ↦ ground arith
  | inr (j, known) ↦
      encode_from-lt (bit_or mask (2 ^ j)) ids (rw (known, encode_from) at e)
        (bit_or-lt 10 mask (2 ^ j) h (clock_bit-small x known))
]

-- With every id known the mask is returned, fits ten digits, and has digit `k` set exactly when
-- some id names clock `k`.
pub encode_clk_ids-requests :
    (ids : List Bytes)
    → first_unknown ids ≡ none
    → (m : ℕ) × (encode_clk_ids ids ≡ ok m)
      × (m < 1024)
      × ((k : ℕ) → bit k m ≡ as_digit (requests k ids))
unfolding encode_clk_ids
encode_clk_ids-requests ids h =
    let (m, e) = encode_from-Encodes 0 ids h in
    (
      m,
      e.returns,
      encode_from-lt 0 ids e.returns (omega arith),
      λ k. omega (arith, e.digits k, bit-zero k),
    )

-- With an unknown id the first of them is reported.
pub encode_clk_ids-fail :
    (ids : List Bytes) (id : Bytes)
    → first_unknown ids ≡ some id
    → encode_clk_ids ids ≡ fail (unknown_clock_id id)
unfolding encode_clk_ids
encode_clk_ids-fail = encode_from-fail 0

-- Order and repetition do not matter: lists of known ids that request the same clocks have the
-- same mask.
pub encode_clk_ids-congr :
    (ids ids' : List Bytes)
    → first_unknown ids ≡ none
    → first_unknown ids' ≡ none
    → ((k : ℕ) → requests k ids ≡ requests k ids')
    → encode_clk_ids ids ≡ encode_clk_ids ids'
encode_clk_ids-congr ids ids' known known' same =
    let (m, e, _, digits) = encode_clk_ids-requests ids known in
    let (m', e', _, digits') = encode_clk_ids-requests ids' known' in
    e ∙ ap ok (eq_of_bits m m' (λ k. digits k ∙ ap as_digit (same k) ∙ sym (digits' k))) ∙ sym e'
