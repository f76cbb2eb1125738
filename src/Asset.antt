-- ===== src/Asset.antt =====
-- asset_linux.go, asset_linux_amd64.go and asset_linux_arm64.go: an object file is read into a
-- fake image, with room for its extern variables behind the code.
pub mod Relocate
pub mod Layout
pub mod Settled
pub mod Loaded
mod Tests
pub mod Resolved
use watchmaker.Prelude.{
  ℕ, zero, suc, ◌+◌, ◌-◌, ◌/◌, ◌^◌, ◌≡◌, List, [], ◌∷◌, ◌++◌, Bool, true, false, ◌&&◌, ◌||◌, Option,
  none, some, ltb, ◌==◌, if◌then◌else◌, length, take, drop, get_elem?,
}
use watchmaker.Prelude.Outcome.{Outcome, ok, fail, panic, hung}
use watchmaker.Go.Text.{Bytes, codes, equal}
use watchmaker.Errors.{Error, sys, wrapped, bad_machine}
use watchmaker.Elf.{
  Endian, Machine, x86_64, aarch64, unsupported, SectionType, progbits, rela, other, Section,
  Symbol, ElfFile, ElfReader,
}
use watchmaker.Kernel.{Arch}
use watchmaker.FakeImage.{FakeImage, new_fake_image}
use watchmaker.Asset.Relocate.{Rela, Asset, asset_ld, uint_of}

-- The first section of a type and a name.
unfoldable pub find_section : (Section → Bool) → List Section → Option Section
find_section test [] = none
find_section test (s ∷ ss) = if test s then some s else find_section test ss

abbrev pub is_progbits : SectionType → Bool
is_progbits progbits = true
is_progbits rela = false
is_progbits other = false

abbrev pub is_rela : SectionType → Bool
is_rela progbits = false
is_rela rela = true
is_rela other = false

abbrev pub is_text : Section → Bool
is_text s = is_progbits s.kind && equal s.name (codes ".text")

abbrev pub is_relocation : Section → Bool
is_relocation s = is_rela s.kind && equal s.name (codes ".rela.text")

abbrev pub is_supported : Machine → Bool
is_supported x86_64 = true
is_supported aarch64 = true
is_supported unsupported = false

-- `binary.Read` of one `elf.Rela64`, from 24 bytes.
abbrev pub rela_of : Endian → Bytes → Rela
rela_of order bytes = record {
  off = uint_of order (take 8 bytes);
  info = uint_of order (take 8 (drop 8 bytes));
  addend = uint_of order (take 8 (drop 16 bytes));
}

-- `symNo == 0 || symNo > uint64(len(syms))` leaves a relocation out.
unfoldable pub symbol_at : ℕ → List Symbol → Option Symbol
symbol_at zero syms = none
symbol_at (suc n) syms = get_elem? syms n

infixl 5 ◌>>=◌
abbrev pub ◌>>=◌ {ℓ} : {E A B : Type ℓ} → Outcome E A → (A → Outcome E B) → Outcome E B
ok a >>= f = f a
fail e >>= f = fail e
panic >>= f = panic
hung >>= f = hung

-- An error that is passed on in another form.
abbrev pub wrapping : {A : Type 0} → Outcome Error A → Outcome Error A
wrapping (ok a) = ok a
wrapping (fail e) = fail (wrapped e)
wrapping panic = panic
wrapping hung = hung

module _ (arch : Arch) (file : ElfFile) (syms : List Symbol) where
  -- The body of the loop over the relocations.
  unfoldable pub relocate_one : Bytes → Asset → Outcome Error Asset
  unfolding symbol_at asset_ld
  relocate_one bytes a =
      let r = rela_of file.byte_order bytes in
      elim (symbol_at (r.info / 2 ^ 32) syms) [
        | none ↦ ok a
        | some sym ↦
            if is_supported file.machine
            then asset_ld arch file.byte_order r sym.name a
            else fail bad_machine
      ]

  -- The loop: a rest of fewer than 24 bytes is an error. Each round takes bytes away, so the
  -- length of the section is fuel enough.
  unfoldable pub relocate_all : ℕ → Bytes → Asset → Outcome Error Asset
  relocate_all fuel [] a = ok a
  relocate_all zero (b ∷ bs) a = hung
  relocate_all (suc fuel) (b ∷ bs) a = elim (ltb (length (b ∷ bs)) 24) [
    | true ↦ fail (wrapped (sys (codes "unexpected EOF")))
    | false ↦ relocate_one (b ∷ bs) a >>= relocate_all fuel (drop 24 (b ∷ bs))
  ]

  unfoldable pub relocate_section : Option Section → Asset → Outcome Error Asset
  unfolding relocate_all relocate_one
  relocate_section none a = ok a
  relocate_section (some s) a = do bytes ← wrapping s.content; relocate_all (length bytes) bytes a

abbrev pub text_of : Option Section → Outcome Error Bytes
text_of none = ok []
text_of (some s) = wrapping s.content

-- `LoadFakeImageFromEmbedFs`; `read_file` stands for the embedded file system.
unfoldable pub load_fake_image :
    Arch → ElfReader → (Bytes → Outcome Error Bytes) → Bytes → Bytes → Outcome Error FakeImage
unfolding find_section relocate_section
load_fake_image arch read_elf read_file filename symbol_name = do
  object ← wrapping (read_file (codes "fakeclock/" ++ filename))
  file ← wrapping (read_elf object)
  syms ← wrapping file.symbols
  content ← text_of (find_section is_text file.sections)
  a ←
      relocate_section arch file syms (find_section is_relocation file.sections)
        (record { content = content; offset = [] })
  ok (new_fake_image symbol_name a.content a.offset)
