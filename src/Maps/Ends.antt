-- ===== src/Maps/Ends.antt =====
-- `ReadMaps` ends.
use watchmaker.Prelude.{
  ℕ, ◌≡◌, inl, inr, refl, List, [], ◌∷◌, ◌++◌, Option, none, some, Option-cases, Bool-cases, get_or,
}
use watchmaker.Prelude.Outcome.{Outcome, ok, fail, panic, hung}
use watchmaker.Prelude.Finishes.{Ends}
use watchmaker.Go.Text.{Bytes, split}
use watchmaker.Go.Strconv.{parse_uint}
use watchmaker.Errors.{Error}
use watchmaker.Maps.Line.{Entry, entry_from, entry_of_sections, entry_of_line, is_entry}
use watchmaker.Maps.{read_lines, read_maps}

entry_from-Ends : (a : ℕ) (addresses sections : List Bytes) → Ends (entry_from a addresses sections)
unfolding entry_from
entry_from-Ends a [] sections = tt
entry_from-Ends a (s ∷ []) sections = tt
entry_from-Ends a (s ∷ end_text ∷ rest) sections = elim (Option-cases (parse_uint 16 end_text)) [
  | inl h ↦ rw (h, Ends) tt
  | inr (b, h) ↦ elim (Option-cases (parse_uint 16 (get_or sections 2 []))) [
    | inl g ↦ rw (h, g, Ends) tt
    | inr (padding, g) ↦ rw (h, g, Ends) tt
  ]
]

entry_of_sections-Ends : (sections : List Bytes) → Ends (entry_of_sections sections)
unfolding entry_of_sections
entry_of_sections-Ends sections = elim (Bool-cases (is_entry sections)) [
  | inr h ↦ rw (h, entry_of_sections, Ends) tt
  | inl h ↦
      let first = get_or (split b'-' (get_or sections 0 [])) 0 [] in
      elim (Option-cases (parse_uint 16 first)) [
        | inl g ↦ rw (h, g, entry_of_sections, Ends) tt
        | inr (a, g) ↦
            rw (h, g, entry_of_sections)
              (entry_from-Ends a (split b'-' (get_or sections 0 [])) sections)
      ]
]

read_lines-step :
    (entries : List Entry) (line : Bytes) (lines : List Bytes)
    → ((more : List Entry) → Ends (read_lines more lines))
    → (r : Outcome Error (Option Entry)) → Ends r
    → entry_of_line line ≡ r
    → Ends (read_lines entries (line ∷ lines))
unfolding read_lines
read_lines-step entries line lines rest (ok none) h e = rw (e, read_lines) (rest entries)
read_lines-step entries line lines rest (ok (some x)) h e =
    rw (e, read_lines) (rest (entries ++ x ∷ []))
read_lines-step entries line lines rest (fail x) h e = rw (e, read_lines, Ends) tt
read_lines-step entries line lines rest panic h e = rw (e, read_lines, Ends) tt
read_lines-step entries line lines rest hung h e = absurd h

read_lines-Ends : (entries : List Entry) (lines : List Bytes) → Ends (read_lines entries lines)
unfolding read_lines entry_of_line
read_lines-Ends entries [] = tt
read_lines-Ends entries (line ∷ lines) =
    read_lines-step entries line lines (λ more. read_lines-Ends more lines) (entry_of_line line)
      (entry_of_sections-Ends (split b' ' line)) refl

pub read_maps-Ends : (r : Outcome Error Bytes) → Ends r → Ends (read_maps r)
unfolding read_maps
read_maps-Ends (ok content) h = read_lines-Ends [] (split b'\n' content)
read_maps-Ends (fail e) h = tt
read_maps-Ends panic h = tt
read_maps-Ends hung h = h
