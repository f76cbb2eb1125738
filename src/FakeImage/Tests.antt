-- ===== src/FakeImage/Tests.antt =====
-- An image on the toy kernel: its variables are written, and a function is redirected and restored.
use watchmaker.Prelude.{ℕ, ◌≡◌, ◌⊎◌, refl, List, [], ◌∷◌, some, none, true, arith, replicate}
use watchmaker.Prelude.Yields.{Yields}
use watchmaker.Prelude.Outcome.{ok, fail}
use watchmaker.Go.Text.{Bytes, codes, equal, equal_fork}
use watchmaker.Kernel.{amd64}
use watchmaker.Kernel.Toy.{World, toy, toy_view, toy-Laws}
use watchmaker.Maps.{Entry, entry}
use watchmaker.Ptrace.Program.{TracedProgram, Session, session}
use watchmaker.Ptrace.Memory.{read_slice, aligned_size, ptrace_write_slice}
use watchmaker.Ptrace.Symbols.{jump_code, jump_to_fake_func}
use watchmaker.FakeImage.Again.{attach_body-Finished}
use watchmaker.Elf.{ElfReader}
use watchmaker.Errors.{no_vdso}
use watchmaker.FakeImage.Image.{
  find_injected_image, compare_content, find_vdso_entry, FakeImage, new_fake_image, Scene, find_key,
  try_rewrite_fake_image,
}
use watchmaker.FakeImage.Attach.{set_variables, attach_body}
use watchmaker.FakeImage.Undo.{Undone, try_rewrite-Undone}
use watchmaker.FakeImage.Stored.{IsApart}
use watchmaker.FakeImage.Vdso.{find_vdso_entry-last}
use watchmaker.FakeImage.Extern.{IsWithin, Finished, set_variables-Finished}

abbrev start : World
start = record {
  memory = λ x. x;
  regs = record { general = λ _. 3; ip = 40 };
  pokes = 9;
  writes = 9;
  answer = 11;
  tasks = [];
  maps = [];
  detached = [];
}

abbrev traced : TracedProgram
traced = record {
  pid = 7;
  tids = 7 ∷ [];
  entries = [];
  backup_regs = record { general = λ _. 0; ip = 0 };
  backup_code = 0 ∷ 0 ∷ [];
}

-- A function of five bytes at 64, whose code is saved.
abbrev image : FakeImage
image = record (new_fake_image (codes "time") [] []) {
  origin_func_code = some (64 ∷ 65 ∷ 66 ∷ 67 ∷ 68 ∷ []);
  origin_address = 64;
}

abbrev redirected : Session World
redirected = (jump_to_fake_func toy amd64 64 4096 (session start traced)).1

abbrev restored : Scene World
restored = (try_rewrite_fake_image toy (record { session = redirected; image = image })).1

try_rewrite-Undone_example :
    Undone (λ x. x) 64 5 (jump_code amd64 4096) restored.session.world.memory
    × (restored.session.world.regs ≡ start.regs)
    × (restored.image.origin_func_code ≡ none)
unfolding aligned_size jump_to_fake_func try_rewrite_fake_image ptrace_write_slice
try_rewrite-Undone_example =
    try_rewrite-Undone amd64 traced (toy-Laws 7) start 4096 5 image redirected restored
      (omega arith) (omega arith) refl refl refl

abbrev seconds : Bytes
seconds = codes "TV_SEC_DELTA"

abbrev nanoseconds : Bytes
nanoseconds = codes "TV_NSEC_DELTA"

-- An image with two variables behind sixteen bytes of code.
abbrev attached : Scene World
attached = record {
  session = session start traced;
  image = new_fake_image (codes "time") (replicate 32 0) ((seconds, 16) ∷ (nanoseconds, 24) ∷ []);
}

abbrev region : Entry
region = entry 4096 4128 (codes "rwxp") 0 []

abbrev offsets : List (Bytes × ℕ)
offsets = (seconds, 16) ∷ (nanoseconds, 24) ∷ []

found_cases :
    (name : Bytes) (at : ℕ)
    → find_key name offsets ≡ some at
    → ((equal seconds name ≡ true) × (at ≡ 16)) ⊎ ((equal nanoseconds name ≡ true) × (at ≡ 24))
unfolding find_key
found_cases name at h = ground arith

offsets-IsApart : IsApart offsets
offsets-IsApart name other at there differ h g = ground (
  arith,
  found_cases name at h,
  found_cases other there g,
  equal_fork seconds name other,
  equal_fork nanoseconds name other,
)

offsets-IsWithin : IsWithin 4096 offsets
offsets-IsWithin name at h = ground (arith, found_cases name at h)

set_variables-Finished_example :
    Yields
      (λ _. Finished toy_view attached region ((nanoseconds, 5) ∷ (seconds, 300) ∷ []))
      (set_variables toy amd64 region ((nanoseconds, 5) ∷ (seconds, 300) ∷ []) attached)
unfolding find_key equal
set_variables-Finished_example =
    set_variables-Finished region ((nanoseconds, 5) ∷ (seconds, 300) ∷ []) attached (toy-Laws 7)
      (refl, (refl, tt)) offsets-IsApart offsets-IsWithin

abbrev vdso_entries : List Entry
vdso_entries =
    entry 0x1000 0x2000 (codes "r-xp") 0 (codes "[vdso]")
    ∷ entry 0x3000 0x4000 (codes "r--p") 0 []
    ∷ []

find_vdso_entry-last_example :
    find_vdso_entry (region ∷ vdso_entries)
    ≡ ok (entry 0x1000 0x2000 (codes "r-xp") 0 (codes "[vdso]"))
unfolding equal
find_vdso_entry-last_example =
    find_vdso_entry-last (region ∷ []) (entry 0x3000 0x4000 (codes "r--p") 0 [] ∷ [])
      (entry 0x1000 0x2000 (codes "r-xp") 0 (codes "[vdso]")) refl (refl, tt)

-- The image in place at the region, whose bytes are the image's.
abbrev in_place : Scene World
in_place = record {
  session = session (record start { memory = λ _. 0 }) (record traced { entries = vdso_entries });
  image = record attached.image { fake_entry = some region };
}

abbrev no_elf : ElfReader
no_elf bytes = fail no_vdso

attach_body-Finished_example :
    Yields
      (λ _. Finished toy_view in_place region ((nanoseconds, 5) ∷ (seconds, 300) ∷ []))
      (attach_body toy amd64 no_elf ((nanoseconds, 5) ∷ (seconds, 300) ∷ []) in_place)
unfolding find_key equal find_vdso_entry find_injected_image compare_content read_slice
attach_body-Finished_example =
    attach_body-Finished no_elf ((nanoseconds, 5) ∷ (seconds, 300) ∷ []) in_place in_place
      (entry 0x1000 0x2000 (codes "r-xp") 0 (codes "[vdso]")) region (toy-Laws 7) (refl, (refl, tt))
      offsets-IsApart offsets-IsWithin refl refl
