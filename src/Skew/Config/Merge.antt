-- ===== src/Skew/Config/Merge.antt =====
-- Merging skews one after the other.
use watchmaker.Prelude.{ℕ, ◌≡◌, ap, ◌∙◌, arith, max, sym, List, [], ◌∷◌}
use watchmaker.Prelude.Int.{ℤ, pos, ◌+ℤ◌, +ℤ_assoc}
use watchmaker.Prelude.Bits.{bit, bit-bit_or}
use watchmaker.Go.Words.{wrap64, IsInt64, int64-uint64, int64-IsInt64, uint64-lt, uint64, int64}
use watchmaker.Skew.Config.{Config, merge}

-- The offsets are in the range of Go's `int64`.
pub record IsConfig (c : Config) : Type 0 where
  pub seconds : IsInt64 c.delta_seconds
  pub nano_seconds : IsInt64 c.delta_nano_seconds

-- Merging into `c`, one after the other.
unfoldable pub merge_all : Config → List Config → Config
merge_all c [] = c
merge_all c (a ∷ cs) = merge_all (merge c a) cs

-- The sum of one of the offsets, without a bound.
unfoldable pub total : (Config → ℤ) → List Config → ℤ
total delta [] = pos 0
total delta (a ∷ cs) = delta a +ℤ total delta cs

-- The largest digit `k` of the masks: 1 if one of them has it set.
unfoldable pub mask_digit : ℕ → List Config → ℕ
mask_digit k [] = 0
mask_digit k (a ∷ cs) = max (bit k a.clock_ids_mask) (mask_digit k cs)

wrap64_add : (a b : ℤ) → wrap64 (wrap64 a +ℤ b) ≡ wrap64 (a +ℤ b)
unfolding uint64 int64 ◌+ℤ◌
wrap64_add a b = ground arith

+ℤ_zero : (a : ℤ) → a +ℤ pos 0 ≡ a
unfolding ◌+ℤ◌
+ℤ_zero a = ground arith

wrap64-IsInt64 : (a : ℤ) → IsInt64 (wrap64 a)
wrap64-IsInt64 a = int64-IsInt64 (uint64 a) (uint64-lt a)

merge-IsConfig : (c a : Config) → IsConfig (merge c a)
unfolding merge
merge-IsConfig c a = record {
  seconds = wrap64-IsInt64 (c.delta_seconds +ℤ a.delta_seconds);
  nano_seconds = wrap64-IsInt64 (c.delta_nano_seconds +ℤ a.delta_nano_seconds);
}

sum_step : (a b t : ℤ) → wrap64 (wrap64 (a +ℤ b) +ℤ t) ≡ wrap64 (a +ℤ (b +ℤ t))
sum_step a b t = wrap64_add (a +ℤ b) t ∙ ap wrap64 (+ℤ_assoc a b t)

sum_start : (a : ℤ) → IsInt64 a → a ≡ wrap64 (a +ℤ pos 0)
sum_start a h = sym (ap wrap64 (+ℤ_zero a) ∙ int64-uint64 a h)

max_zero : (a : ℕ) → a ≡ max a 0
max_zero a = ground arith

max_step : (a b m : ℕ) → max (max a b) m ≡ max a (max b m)
max_step a b m = ground arith

-- Merging configurations one after the other into one whose offsets are `int64`s leaves the sums
-- of the offsets, wrapped once into 64 bits, and a mask with the digits that one of the masks has.
pub merge_all-total :
    (c : Config) (cs : List Config)
    → IsConfig c
    → ((merge_all c cs).delta_seconds ≡ wrap64 (total (λ a. a.delta_seconds) (c ∷ cs)))
      × ((merge_all c cs).delta_nano_seconds ≡ wrap64 (total (λ a. a.delta_nano_seconds) (c ∷ cs)))
      × ((k : ℕ) → bit k (merge_all c cs).clock_ids_mask ≡ mask_digit k (c ∷ cs))
unfolding merge_all total mask_digit merge
merge_all-total c [] h = (
  sum_start c.delta_seconds h.seconds,
  sum_start c.delta_nano_seconds h.nano_seconds,
  λ k. max_zero (bit k c.clock_ids_mask),
)
merge_all-total c (a ∷ cs) h =
    let (s, n, m) = merge_all-total (merge c a) cs (merge-IsConfig c a) in
    (
      s ∙ sum_step c.delta_seconds a.delta_seconds (total (λ b. b.delta_seconds) cs),
      n ∙ sum_step c.delta_nano_seconds a.delta_nano_seconds (total (λ b. b.delta_nano_seconds) cs),
      λ k.
          m k
          ∙ ap (λ d. max d (mask_digit k cs)) (bit-bit_or k c.clock_ids_mask a.clock_ids_mask)
          ∙ max_step (bit k c.clock_ids_mask) (bit k a.clock_ids_mask) (mask_digit k cs),
    )
