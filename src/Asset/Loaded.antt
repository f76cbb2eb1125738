-- ===== src/Asset/Loaded.antt =====
-- What a loaded image looks like.
use watchmaker.Prelude.{ℕ, ◌≡◌, refl, List, [], ◌++◌, Option, none, some, length, arith, subst}
use watchmaker.Prelude.Outcome.{Outcome, ok, fail, panic, hung}
use watchmaker.Go.Text.{Bytes, codes}
use watchmaker.Errors.{Error}
use watchmaker.Elf.{ElfReader, ElfFile, Section, Symbol}
use watchmaker.Kernel.{Arch}
use watchmaker.FakeImage.{FakeImage, find_key}
use watchmaker.Asset.{
  ◌>>=◌, wrapping, load_fake_image, relocate_section, relocate_all, text_of, find_section, is_text,
  is_relocation,
}
use watchmaker.Asset.Relocate.{Asset}
use watchmaker.Asset.Layout.{Layout}
use watchmaker.Asset.Settled.{Settles, relocate_all-Settles}

-- What holds of the value of a success.
pub data Holds {A : Type 0} (P : A → Type 0) : Outcome Error A → Type 0 where
  on_ok : {a : A} → P a → Holds P (ok a)
  on_fail : {e : Error} → Holds P (fail e)
  on_panic : Holds P panic
  on_hung : Holds P hung

module _ {A : Type 0} {P : A → Type 0} where
  -- What a success says, once it is known to be one.
  pub holds_at : {r : Outcome Error A} {a : A} → Holds P r → r ≡ ok a → P a
  holds_at {a} (on_ok {a = x} p) e = let value : x ≡ a = cc in subst P value p
  holds_at on_fail e = absurd (cc)
  holds_at on_panic e = absurd (cc)
  holds_at on_hung e = absurd (cc)

  Holds-bind :
      {B : Type 0} {Q : B → Type 0} {r : Outcome Error A} {f : A → Outcome Error B}
      → Holds P r
      → ((a : A) → P a → Holds Q (f a))
      → Holds Q (r >>= f)
  Holds-bind (on_ok p) next = next _ p
  Holds-bind on_fail next = on_fail
  Holds-bind on_panic next = on_panic
  Holds-bind on_hung next = on_hung

Holds-any : {A : Type 0} (r : Outcome Error A) → Holds (λ a. r ≡ ok a) r
Holds-any (ok a) = on_ok refl
Holds-any (fail e) = on_fail
Holds-any panic = on_panic
Holds-any hung = on_hung

Holds-Settles :
    (arch : Arch) (text : ℕ) (r : Outcome Error Asset)
    → Settles arch text r
    → Holds (Layout arch text) r
Holds-Settles arch text (ok a) h = on_ok h
Holds-Settles arch text (fail e) h = on_fail
Holds-Settles arch text panic h = on_panic
Holds-Settles arch text hung h = on_hung

no_key : (name : Bytes) (at : ℕ) → find_key name [] ≡ some at → ⊥
unfolding find_key
no_key name at h = cc

pub Layout-start :
    (arch : Arch) (content : Bytes)
    → Layout arch (length content) (record { content = content; offset = [] })
Layout-start arch content = record {
  grown = omega arith;
  placed = λ name at found. absurd (no_key name at found);
  apart = λ name other at there differ found _. absurd (no_key name at found);
}

module _ (arch : Arch) (file : ElfFile) (syms : List Symbol) where
  relocate_section-Layout :
      (section : Option Section) (text : ℕ) (a : Asset)
      → Layout arch text a
      → Holds (Layout arch text) (relocate_section arch file syms section a)
  unfolding relocate_section
  relocate_section-Layout none text a l = on_ok l
  relocate_section-Layout (some s) text a l =
      Holds-bind (Holds-any (wrapping s.content)) (λ bytes _.
        Holds-Settles arch text (relocate_all arch file syms (length bytes) bytes a)
          (relocate_all-Settles arch text file syms (length bytes) bytes a (omega arith) l))

-- The image's table and content.
abbrev pub asset_of : FakeImage → Asset
asset_of it = record { content = it.content; offset = it.offset }

module _ (arch : Arch) (read_elf : ElfReader) (read_file : Bytes → Outcome Error Bytes)
    (filename name : Bytes) where
  -- `code` is the content of the first section `.text` of the object file with that name.
  pub record Holding (code : Bytes) : Type 0 where
    pub object : Bytes
    pub file : ElfFile
    pub opened : wrapping (read_file (codes "fakeclock/" ++ filename)) ≡ ok object
    pub parsed : wrapping (read_elf object) ≡ ok file
    pub found : text_of (find_section is_text file.sections) ≡ ok code

  abbrev pub IsLoaded : FakeImage → Type 0
  IsLoaded it = (code : Bytes) × Holding code × Layout arch (length code) (asset_of it)

  load_fake_image-Holds : Holds IsLoaded (load_fake_image arch read_elf read_file filename name)
  unfolding load_fake_image
  load_fake_image-Holds =
      Holds-bind (Holds-any (wrapping (read_file (codes "fakeclock/" ++ filename))))
        λ object opened. Holds-bind (Holds-any (wrapping (read_elf object))) λ file parsed.
          Holds-bind (Holds-any (wrapping file.symbols)) λ syms _.
            Holds-bind (Holds-any (text_of (find_section is_text file.sections))) λ content found.
              Holds-bind
                (relocate_section-Layout arch file syms (find_section is_relocation file.sections)
                  (length content) (record { content = content; offset = [] })
                  (Layout-start arch content))
                λ a l. on_ok (
                  content,
                  record {
                    object = object;
                    file = file;
                    opened = opened;
                    parsed = parsed;
                    found = found;
                  },
                  l,
                )

  -- If `load_fake_image` returns an image, then there is the code of the first section `.text` of
  -- the object file; each variable in the image's table has its room in the image's content behind
  -- as many bytes as the code has, and the rooms of two variables with different names do not meet.
  pub load_fake_image-Layout :
      (it : FakeImage)
      → load_fake_image arch read_elf read_file filename name ≡ ok it
      → (code : Bytes) × Holding code × Layout arch (length code) (asset_of it)
  load_fake_image-Layout it e = holds_at load_fake_image-Holds e
