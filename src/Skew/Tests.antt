-- ===== src/Skew/Tests.antt =====
-- Configurations that are merged, and a recovery that fails twice.
use watchmaker.Prelude.{ℕ, ◌≡◌, [], ◌∷◌, arith, some, none}
use watchmaker.Prelude.Int.{pos, negsuc}
use watchmaker.Prelude.Bits.{bit}
use watchmaker.Go.Words.{wrap64}
use watchmaker.Go.Text.{codes, split}
use watchmaker.Kernel.{amd64}
use watchmaker.Kernel.Toy.{World, toy}
use watchmaker.FakeImage.{FakeImage, new_fake_image, recover}
use watchmaker.Ptrace.Trace.{trace, trace_loop, scan_threads, trace_body}
use watchmaker.Maps.{read_maps}
use watchmaker.Go.Strconv.{parse_uint, digit}
use watchmaker.Skew.Config.{Config}
use watchmaker.Skew.Config.Merge.{merge_all, total, mask_digit, merge_all-total}
use watchmaker.Skew.{Skewed, recover_all}
use watchmaker.Skew.Recovery.{first, second, joined, recover_all-joined}

abbrev base : Config
base = record { delta_seconds = pos 5; delta_nano_seconds = negsuc 0; clock_ids_mask = 1 }

abbrev late : Config
late = record {
  delta_seconds = pos 0x7fff_ffff_ffff_ffff;
  delta_nano_seconds = pos 3;
  clock_ids_mask = 32;
}

merge_all-total_example :
    ((merge_all base (late ∷ base ∷ [])).delta_seconds
      ≡ wrap64 (total (λ a. a.delta_seconds) (base ∷ late ∷ base ∷ [])))
    × ((merge_all base (late ∷ base ∷ [])).delta_nano_seconds
        ≡ wrap64 (total (λ a. a.delta_nano_seconds) (base ∷ late ∷ base ∷ [])))
    × ((k : ℕ)
        → bit k (merge_all base (late ∷ base ∷ [])).clock_ids_mask
          ≡ mask_digit k (base ∷ late ∷ base ∷ []))
merge_all-total_example =
    merge_all-total base (late ∷ base ∷ [])
      (record { seconds = (omega arith, omega arith); nano_seconds = (omega arith, omega arith) })

-- A process whose list of memory regions cannot be read.
abbrev broken : World
broken = record {
  memory = λ _. 0;
  regs = record { general = λ _. 0; ip = 0 };
  pokes = 9;
  writes = 9;
  answer = 0;
  tasks = [];
  maps = codes "zz r-xp 0";
  detached = [];
}

abbrev injected : FakeImage
injected = record (new_fake_image (codes "time") [] []) { origin_func_code = some (0 ∷ []) }

abbrev start : Skewed World
start = record {
  world = broken;
  skew = record {
    skew_config = base;
    time = none;
    clock_get_time = injected;
    get_time_of_day = injected;
  };
}

recover_all-joined_example : recover_all toy amd64 7 start ≡ (
  joined toy amd64 7
      (first toy amd64 7 start).0
      (second toy amd64 7 start (first toy amd64 7 start).1).0,
  (second toy amd64 7 start (first toy amd64 7 start).1).1,
)
unfolding recover trace trace_loop scan_threads trace_body read_maps parse_uint digit split
recover_all-joined_example = recover_all-joined toy amd64 7 start tt
