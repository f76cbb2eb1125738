-- ===== src/Asset/Tests.antt =====
-- A small object file: ten bytes of code, and relocations of two variables.
use watchmaker.Prelude.{length, refl, List, [], ◌∷◌, ◌++◌, arith, replicate, ◌+◌, ◌*◌, ◌-◌, ◌^◌}
use watchmaker.Prelude.Outcome.{Outcome, ok}
use watchmaker.Go.Text.{Bytes, codes, equal}
use watchmaker.Go.Words.{two_64}
use watchmaker.Elf.{little, x86_64, progbits, rela, Symbol, ElfFile}
use watchmaker.Kernel.{amd64}
use watchmaker.Ptrace.Memory.{le_bytes}
use watchmaker.Errors.{Error}
use watchmaker.FakeImage.{FakeImage, new_fake_image}
use watchmaker.Asset.{relocate_one, relocate_all, load_fake_image}
use watchmaker.Asset.Relocate.{Rela, Asset}
use watchmaker.Asset.Layout.{Layout}
use watchmaker.Asset.Resolved.{Resolved}
use watchmaker.Asset.Settled.{Settles, relocate_all-Settles}
use watchmaker.Asset.Loaded.{Holding, asset_of, load_fake_image-Layout, Layout-start}

abbrev code : Bytes
code = replicate 10 0x90

-- R_X86_64_PC32 with the addend - 4.
abbrev reference : Rela
reference = record { off = 3; info = 2 ^ 32 + 2; addend = two_64 - 4 }

abbrev before : Asset
before = record { content = code; offset = [] }

abbrev after : Asset
after = record {
  content = 0x90 ∷ 0x90 ∷ 0x90 ∷ (le_bytes 4 3 ++ replicate 3 0x90 ++ replicate 8 0);
  offset = (codes "TV_SEC_DELTA", 10) ∷ [];
}

abbrev symbols : List Symbol
symbols =
    record { name = codes "TV_SEC_DELTA"; value = 0; size = 0 }
    ∷ record { name = codes "TV_NSEC_DELTA"; value = 8; size = 0 }
    ∷ []

-- Two relocations, of the symbols 1 and 2.
abbrev relocations : Bytes
relocations =
    le_bytes 8 0
    ++ (le_bytes 8 (2 ^ 32 + 2)
        ++ (le_bytes 8 (two_64 - 4)
            ++ (le_bytes 8 5 ++ (le_bytes 8 (2 * 2 ^ 32 + 2) ++ le_bytes 8 (two_64 - 4)))))

abbrev object : ElfFile
object = record {
  byte_order = little;
  machine = x86_64;
  sections =
      record { kind = progbits; name = codes ".text"; content = ok code }
      ∷ record { kind = rela; name = codes ".rela.text"; content = ok relocations }
      ∷ [];
  progs = [];
  symbols = ok symbols;
  dynamic_symbols = ok [];
}

relocate_all-Settles_example :
    Settles amd64 10 (relocate_all amd64 object symbols 48 relocations before)
relocate_all-Settles_example =
    relocate_all-Settles amd64 10 object symbols 48 relocations before (omega arith)
      (Layout-start amd64 code)

abbrev loaded : Outcome Error FakeImage
loaded =
    load_fake_image amd64 (λ _. ok object) (λ _. ok []) (codes "fake_time_amd64.o") (codes "time")

abbrev image : FakeImage
image =
    new_fake_image (codes "time") (le_bytes 4 6 ++ (0x90 ∷ (le_bytes 4 9 ++ 0x90 ∷ replicate 16 0)))
      ((codes "TV_SEC_DELTA", 10) ∷ (codes "TV_NSEC_DELTA", 18) ∷ [])

load_fake_image-Layout_example :
    (text : Bytes) × Holding amd64
      (λ _. ok object)
      (λ _. ok [])
      (codes "fake_time_amd64.o")
      (codes "time")
      text
    × Layout amd64 (length text) (asset_of image)
unfolding load_fake_image relocate_all relocate_one equal
load_fake_image-Layout_example =
    load_fake_image-Layout amd64 (λ _. ok object) (λ _. ok []) (codes "fake_time_amd64.o")
      (codes "time") image refl
