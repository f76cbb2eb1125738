-- ===== src/Skew/Inject.antt =====
-- `Skew`: three images, injected in a row and recovered in a row.
use watchmaker.Prelude.{ℕ, [], ◌∷◌, Option, none, some}
use watchmaker.Prelude.Outcome.{Outcome, ok}
use watchmaker.Prelude.State.{M, pure, raise, ◌>>◌, on_error, zoom}
use watchmaker.Go.Text.{Bytes, codes}
use watchmaker.Go.Words.{uint64}
use watchmaker.Errors.{Error, both}
use watchmaker.Elf.{ElfReader}
use watchmaker.Kernel.{Arch, amd64, arm64, Kernel}
use watchmaker.FakeImage.{FakeImage, T, Variables, attach_to_process, recover}
use watchmaker.Asset.{load_fake_image, wrapping}
use watchmaker.Asset as Asset
use watchmaker.Skew.Config.{Config}

pub record Skew : Type 0 where
  pub skew_config : Config
  pub time : Option FakeImage
  pub clock_get_time : FakeImage
  pub get_time_of_day : FakeImage

abbrev pub var_clock_ids_mask : Bytes
var_clock_ids_mask = codes "CLOCK_IDS_MASK"

abbrev pub var_tv_sec_delta : Bytes
var_tv_sec_delta = codes "TV_SEC_DELTA"

abbrev pub var_tv_nsec_delta : Bytes
var_tv_nsec_delta = codes "TV_NSEC_DELTA"

-- The names of the object files.
abbrev pub time_file : Arch → Bytes
time_file amd64 = codes "fake_time_amd64.o"
time_file arm64 = codes "fake_time_arm64.o"

abbrev pub clock_gettime_file : Arch → Bytes
clock_gettime_file amd64 = codes "fake_clock_gettime_amd64.o"
clock_gettime_file arm64 = codes "fake_clock_gettime_arm64.o"

abbrev pub time_of_day_file : Arch → Bytes
time_of_day_file amd64 = codes "fake_gettimeofday_amd64.o"
time_of_day_file arm64 = codes "fake_gettimeofday_arm64.o"

module _ (arch : Arch) (read_elf : ElfReader) (read_file : Bytes → Outcome Error Bytes) where
  abbrev load : Bytes → Bytes → Outcome Error FakeImage
  load file name = wrapping (load_fake_image arch read_elf read_file file name)

  -- There is no image of `time` on arm64.
  abbrev load_time : Arch → Outcome Error (Option FakeImage)
  load_time arm64 = ok none
  load_time amd64 = Asset.◌>>=◌ (load (time_file arch) (codes "time")) λ it. ok (some it)

  -- `GetSkew`.
  unfoldable pub get_skew : Config → Outcome Error Skew
  get_skew c = Asset.◌>>=◌ (load_time arch) λ time.
      Asset.◌>>=◌ (load (clock_gettime_file arch) (codes "clock_gettime")) λ clock.
        Asset.◌>>=◌ (load (time_of_day_file arch) (codes "gettimeofday")) λ day.
          ok
            (record { skew_config = c; time = time; clock_get_time = clock; get_time_of_day = day })

  -- `Fork`: the images are loaded again, so nothing that was injected is shared.
  unfoldable pub fork : Skew → Outcome Error Skew
  unfolding get_skew
  fork s = get_skew s.skew_config

-- The variables of the calls: `uint64(...)` of the offsets.
abbrev pub time_variables : Config → Variables
time_variables c =
    (var_tv_sec_delta, uint64 c.delta_seconds)
    ∷ (var_tv_nsec_delta, uint64 c.delta_nano_seconds)
    ∷ []

abbrev pub clock_variables : Config → Variables
clock_variables c = (var_clock_ids_mask, c.clock_ids_mask) ∷ time_variables c

-- The world and the skew.
pub record Skewed (W : Type 0) : Type 0 where
  pub world : W
  pub skew : Skew

abbrev pub K : Type 0 → Type 0 → Type 0
K W A = M Error (Skewed W) A

module _ {W : Type 0} where
  -- A method of one of the images.
  abbrev pub on_clock : {A : Type 0} → T W A → K W A
  on_clock =
      zoom (λ s. record { world = s.world; image = s.skew.clock_get_time })
        (λ s t. record { world = t.world; skew = record s.skew { clock_get_time = t.image } })

  abbrev pub on_day : {A : Type 0} → T W A → K W A
  on_day =
      zoom (λ s. record { world = s.world; image = s.skew.get_time_of_day })
        (λ s t. record { world = t.world; skew = record s.skew { get_time_of_day = t.image } })

  abbrev pub on_time : {A : Type 0} → FakeImage → T W A → K W A
  on_time it =
      zoom (λ s. record { world = s.world; image = it })
        (λ s t. record { world = t.world; skew = record s.skew { time = some t.image } })

module _ {W : Type 0} (k : Kernel W) (arch : Arch) where
  module _ (read_elf : ElfReader) where
    -- `if s.time != nil { … }`.
    unfoldable pub inject_time : ℕ → K W (Unit {0})
    inject_time pid s = elim s.skew.time [
      | none ↦ pure tt s
      | some it ↦
          on_time it (attach_to_process k arch read_elf pid (time_variables s.skew.skew_config)) s
    ]

    -- `Inject`.
    unfoldable pub inject : ℕ → K W (Unit {0})
    unfolding inject_time
    inject pid s =
        (do
          inject_time pid
          on_clock (attach_to_process k arch read_elf pid (clock_variables s.skew.skew_config))
          on_day (attach_to_process k arch read_elf pid (time_variables s.skew.skew_config)))
          s

  -- `Recover`: the second image is recovered also behind an error of the first.
  unfoldable pub recover_all : ℕ → K W (Unit {0})
  recover_all pid s =
      (do
        on_error (on_clock (recover k arch pid (clock_variables s.skew.skew_config))) (λ e1.
            on_error (on_day (recover k arch pid (time_variables s.skew.skew_config)))
              (λ e2. raise (both e1 e2))
            >> raise e1)
        on_day (recover k arch pid (time_variables s.skew.skew_config)))
        s
