-- ===== src/Asset/Layout.antt =====
-- Where the variables of a loaded image stand, and that the relocations are gone through to their
-- end.
use watchmaker.Prelude.{
  ℕ, ◌+◌, ◌≤◌, ◌≡◌, ◌⊎◌, inl, inr, refl, ap, ◌∙◌, Bool-cases, List, [], ◌∷◌, ◌++◌, false, some,
  arith, leb, if◌then◌else◌, length, take, drop, replicate, length-append, length-replicate,
  length-take, length-drop,
}
use watchmaker.Prelude.Outcome.{ok, panic}
use watchmaker.Go.Text.{Bytes, equal, eq_of_equal, equal_join, equal_fork}
use watchmaker.Elf.{Endian, little, big}
use watchmaker.Kernel.{Arch}
use watchmaker.FakeImage.{var_length, find_key}
use watchmaker.Asset.Relocate.{Rela, Asset, asset_ld, set_key, overwrite, relocated, uint_bytes}

-- An entry of the table has its room inside the content, behind the code of `text` bytes.
abbrev pub IsPlaced : Arch → ℕ → ℕ → ℕ → Type 0
IsPlaced arch text size at = (text ≤ at) × (at + var_length arch ≤ size)

-- All entries have, and the rooms of two names do not meet.
pub record Layout (arch : Arch) (text : ℕ) (a : Asset) : Type 0 where
  pub grown : text ≤ length a.content
  pub placed :
      (name : Bytes) (at : ℕ)
      → find_key name a.offset ≡ some at
      → IsPlaced arch text (length a.content) at
  pub apart :
      (name other : Bytes) (at there : ℕ)
      → equal name other ≡ false
      → find_key name a.offset ≡ some at
      → find_key other a.offset ≡ some there
      → (at + var_length arch ≤ there) ⊎ (there + var_length arch ≤ at)

pub find_key-set_key :
    (name key : Bytes) (v : ℕ) (table : List (Bytes × ℕ))
    → find_key name (set_key key v table) ≡ (if equal key name then some v else find_key name table)
unfolding find_key set_key
find_key-set_key name key v [] = refl
find_key-set_key name key v ((k, w) ∷ kvs) = elim (Bool-cases (equal k key)) [
  | inl h ↦
      let same : equal k name ≡ equal key name = ap (λ x. equal x name) (eq_of_equal k key h) in
      rw (h, same) (ground arith)
  | inr h ↦ rw h (ground (arith, find_key-set_key name key v kvs, equal_join k key name))
]

length-overwrite :
    (content bytes : Bytes) (at : ℕ)
    → at + length bytes ≤ length content
    → length (overwrite content at bytes) ≡ length content
length-overwrite content bytes at h = ground (
  arith,
  length-append (take at content) (bytes ++ drop (at + length bytes) content),
  length-append bytes (drop (at + length bytes) content),
  length-take at content,
  length-drop (at + length bytes) content,
)

pub length-uint_bytes : (order : Endian) (v : ℕ) → length (uint_bytes order 4 v) ≡ 4
length-uint_bytes little v = refl
length-uint_bytes big v = refl

module _ (arch : Arch) (order : Endian) (rela : Rela) (name : Bytes) where
  -- The content behind one relocation.
  abbrev patched : Asset → Bytes
  patched a =
      overwrite a.content rela.off (uint_bytes order 4 (relocated arch order a.content rela))
      ++ replicate (var_length arch) 0

  abbrev pub extended : Asset → Asset
  extended a = record { content = patched a; offset = set_key name (length a.content) a.offset }

  length-patched :
      (a : Asset)
      → rela.off + 4 ≤ length a.content
      → length (patched a) ≡ length a.content + var_length arch
  length-patched a h =
      let word = uint_bytes order 4 (relocated arch order a.content rela) in
      let four = length-uint_bytes order (relocated arch order a.content rela) in
      length-append (overwrite a.content rela.off word) (replicate (var_length arch) 0)
      ∙ omega (
        arith,
        length-replicate {A = ℕ} (var_length arch) 0,
        length-overwrite a.content word rela.off (omega (arith, four)),
      )

  pub asset_ld-cases :
      (a : Asset)
      → (asset_ld arch order rela name a ≡ panic)
        ⊎ ((rela.off + 4 ≤ length a.content) × (asset_ld arch order rela name a ≡ ok (extended a)))
  unfolding asset_ld
  asset_ld-cases a = elim (Bool-cases (leb (rela.off + 4) (length a.content))) [
    | inl h ↦ inr (ground arith, rw h refl)
    | inr h ↦ inl (rw h refl)
  ]

  apart-extended :
      (text : ℕ) (a : Asset) (one two : Bytes) (at there : ℕ)
      → Layout arch text a
      → equal one two ≡ false
      → find_key one (extended a).offset ≡ some at
      → find_key two (extended a).offset ≡ some there
      → (at + var_length arch ≤ there) ⊎ (there + var_length arch ≤ at)
  apart-extended text a one two at there l differ found_one found_two = ground (
    arith,
    l.placed one at,
    l.placed two there,
    l.apart one two at there,
    find_key-set_key one name (length a.content) a.offset,
    find_key-set_key two name (length a.content) a.offset,
    equal_fork name one two,
  )

  pub Layout-extended :
      (text : ℕ) (a : Asset)
      → rela.off + 4 ≤ length a.content
      → Layout arch text a
      → Layout arch text (extended a)
  Layout-extended text a h l = record {
    grown = omega (arith, l.grown, length-patched a h);
    placed = λ other at found. ground (
      arith,
      l.grown,
      l.placed other at,
      length-patched a h,
      find_key-set_key other name (length a.content) a.offset,
    );
    apart = λ one two at there. apart-extended text a one two at there l;
  }
