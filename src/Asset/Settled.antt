-- ===== src/Asset/Settled.antt =====
-- The loop over the relocations ends, and keeps the layout of the variables.
use watchmaker.Prelude.{
  ℕ, zero, suc, ◌⊎◌, ◌/◌, ◌^◌, ◌≤◌, ◌≡◌, inl, inr, refl, subst, sym, Bool-cases, Option-cases, List,
  [], ◌∷◌, Option, none, some, true, false, arith, ltb, length, drop, length-drop,
}
use watchmaker.Prelude.Outcome.{Outcome, ok, fail, panic, hung}
use watchmaker.Go.Text.{Bytes}
use watchmaker.Errors.{Error, bad_machine}
use watchmaker.Elf.{Endian, Symbol, ElfFile}
use watchmaker.Kernel.{Arch}
use watchmaker.Asset.{relocate_one, relocate_all, symbol_at, rela_of, is_supported, ◌>>=◌}
use watchmaker.Asset.Relocate.{Rela, Asset, asset_ld}
use watchmaker.Asset.Layout.{Layout, asset_ld-cases, Layout-extended}

-- Not out of fuel, and a success has the layout.
abbrev pub Settles : Arch → ℕ → Outcome Error Asset → Type 0
Settles arch text (ok b) = Layout arch text b
Settles arch text (fail e) = Unit
Settles arch text panic = Unit
Settles arch text hung = ⊥

module _ (arch : Arch) (text : ℕ) where
  Settles-asset_ld :
      (order : Endian) (rela : Rela) (name : Bytes) (a : Asset)
      → Layout arch text a
      → Settles arch text (asset_ld arch order rela name a)
  Settles-asset_ld order rela name a l = elim (asset_ld-cases arch order rela name a) [
    | inl h ↦ subst (Settles arch text) (sym h) tt
    | inr (fits, h) ↦
        subst (Settles arch text) (sym h) (Layout-extended arch order rela name text a fits l)
  ]

  Settles-bind :
      (r : Outcome Error Asset) (f : Asset → Outcome Error Asset)
      → Settles arch text r
      → ((a : Asset) → Layout arch text a → Settles arch text (f a))
      → Settles arch text (r >>= f)
  Settles-bind (ok a) f l next = next a l
  Settles-bind (fail e) f l next = tt
  Settles-bind panic f l next = tt
  Settles-bind hung f l next = l

  module _ (file : ElfFile) (syms : List Symbol) where
    abbrev symbol_of : Bytes → Option Symbol
    symbol_of bytes = symbol_at ((rela_of file.byte_order bytes).info / 2 ^ 32) syms

    one_none :
        (bytes : Bytes) (a : Asset)
        → symbol_of bytes ≡ none
        → relocate_one arch file syms bytes a ≡ ok a
    unfolding relocate_one
    one_none bytes a h = rw (h, relocate_one) refl

    one_some :
        (bytes : Bytes) (a : Asset) (target : Symbol)
        → symbol_of bytes ≡ some target
        → (relocate_one arch file syms bytes a ≡ fail bad_machine)
          ⊎ (relocate_one arch file syms bytes a
              ≡ asset_ld arch file.byte_order (rela_of file.byte_order bytes) target.name a)
    unfolding relocate_one
    one_some bytes a target h = elim (Bool-cases (is_supported file.machine)) [
      | inl g ↦ inr (rw (h, g, relocate_one) refl)
      | inr g ↦ inl (rw (h, g, relocate_one) refl)
    ]

    Settles-relocate_one :
        (bytes : Bytes) (a : Asset)
        → Layout arch text a
        → Settles arch text (relocate_one arch file syms bytes a)
    Settles-relocate_one bytes a l = elim (Option-cases (symbol_of bytes)) [
      | inl h ↦ subst (Settles arch text) (sym (one_none bytes a h)) l
      | inr (target, h) ↦ elim (one_some bytes a target h) [
        | inl e ↦ subst (Settles arch text) (sym e) tt
        | inr e ↦
            subst (Settles arch text) (sym e)
              (Settles-asset_ld file.byte_order (rela_of file.byte_order bytes) target.name a l)
      ]
    ]

    all_short :
        (fuel b : ℕ) (bs : Bytes) (a : Asset)
        → ltb (length (b ∷ bs)) 24 ≡ true
        → Settles arch text (relocate_all arch file syms (suc fuel) (b ∷ bs) a)
    unfolding relocate_all
    all_short fuel b bs a h = rw (h, relocate_all, Settles) tt

    all_long :
        (fuel b : ℕ) (bs : Bytes) (a : Asset)
        → ltb (length (b ∷ bs)) 24 ≡ false
        → relocate_all arch file syms (suc fuel) (b ∷ bs) a
          ≡ relocate_one arch file syms (b ∷ bs) a
            >>= relocate_all arch file syms fuel (drop 24 (b ∷ bs))
    unfolding relocate_all
    all_long fuel b bs a h = rw (h, relocate_all) refl

    -- With fuel for the length of the section, `relocate_all` does not run out of it, and if it
    -- succeeds on an image with the layout then the result has the layout.
    pub relocate_all-Settles :
        (fuel : ℕ) (bytes : Bytes) (a : Asset)
        → length bytes ≤ fuel
        → Layout arch text a
        → Settles arch text (relocate_all arch file syms fuel bytes a)
    unfolding relocate_all
    relocate_all-Settles fuel [] a fits l = l
    relocate_all-Settles zero (b ∷ bs) a fits l = absurd (omega arith)
    relocate_all-Settles (suc fuel) (b ∷ bs) a fits l =
        let rest = drop 24 (b ∷ bs) in
        let shorter : length rest ≤ fuel = omega (arith, length-drop 24 (b ∷ bs)) in
        elim (Bool-cases (ltb (length (b ∷ bs)) 24)) [
          | inl h ↦ all_short fuel b bs a h
          | inr h ↦ subst (Settles arch text) (sym (all_long fuel b bs a h)) (
              Settles-bind (relocate_one arch file syms (b ∷ bs) a)
                (relocate_all arch file syms fuel rest) (Settles-relocate_one (b ∷ bs) a l)
                (λ c m. relocate_all-Settles fuel rest c shorter m))
        ]
