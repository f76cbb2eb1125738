-- ===== src/Skew/Config.antt =====
-- `Config`: the offsets are `int64`, the mask a `uint64`.
pub mod Merge
use watchmaker.Prelude.{ℕ, ◌+◌, ◌≡◌, bit_or}
use watchmaker.Prelude.Int.{ℤ, ◌+ℤ◌}
use watchmaker.Go.Words.{wrap64}

pub record Config : Type 0 where
  pub delta_seconds : ℤ
  pub delta_nano_seconds : ℤ
  pub clock_ids_mask : ℕ

-- `NewConfig`.
unfoldable pub new_config : ℤ → ℤ → ℕ → Config
new_config s n m = record { delta_seconds = s; delta_nano_seconds = n; clock_ids_mask = m }

-- `DeepCopy`.
unfoldable pub deep_copy : Config → Config
deep_copy c = record {
  delta_seconds = c.delta_seconds;
  delta_nano_seconds = c.delta_nano_seconds;
  clock_ids_mask = c.clock_ids_mask;
}

-- `Merge`: the receiver as it is left.
unfoldable pub merge : Config → Config → Config
merge c a = record {
  delta_seconds = wrap64 (c.delta_seconds +ℤ a.delta_seconds);
  delta_nano_seconds = wrap64 (c.delta_nano_seconds +ℤ a.delta_nano_seconds);
  clock_ids_mask = bit_or c.clock_ids_mask a.clock_ids_mask;
}
