-- ===== src/Maps/Line.antt =====
-- The body of the loop of `ReadMaps`: one line of /proc/pid/maps.
use watchmaker.Prelude.{
  ℕ, ◌-◌, List, [], ◌∷◌, Bool, Option, none, some, ltb, get_or, if◌then◌else◌, length,
}
use watchmaker.Prelude.Outcome.{Outcome, ok, fail, panic}
use watchmaker.Go.Text.{Bytes, split}
use watchmaker.Go.Strconv.{parse_uint}
use watchmaker.Errors.{Error, bad_number}

pub record Entry : Type 0 where
  pub start_address : ℕ
  pub end_address : ℕ
  pub privilege : Bytes
  pub padding_size : ℕ
  pub path : Bytes

abbrev pub entry : ℕ → ℕ → Bytes → ℕ → Bytes → Entry
entry a b privilege padding path = record {
  start_address = a;
  end_address = b;
  privilege = privilege;
  padding_size = padding;
  path = path;
}

-- `if len(sections) < 3 { continue }`.
abbrev pub is_entry : List Bytes → Bool
is_entry sections = ltb 2 (length sections)

unfoldable pub path_of : List Bytes → Bytes
path_of sections = if ltb 5 (length sections) then get_or sections (length sections - 1) [] else []

-- What is read once the start address is known. `addresses[1]` is out of range where the first
-- section holds no dash.
unfoldable pub entry_from : ℕ → List Bytes → List Bytes → Outcome Error (Option Entry)
unfolding path_of
entry_from a (_ ∷ end_text ∷ _) sections = elim (parse_uint 16 end_text) [
  | none ↦ fail (bad_number end_text)
  | some b ↦ elim (parse_uint 16 (get_or sections 2 [])) [
    | none ↦ fail (bad_number (get_or sections 2 []))
    | some padding ↦ ok (some (entry a b (get_or sections 1 []) padding (path_of sections)))
  ]
]
entry_from a _ sections = panic

unfoldable pub entry_of_sections : List Bytes → Outcome Error (Option Entry)
unfolding entry_from
entry_of_sections sections =
    if is_entry sections
    then (let addresses = split b'-' (get_or sections 0 []) in
        elim (parse_uint 16 (get_or addresses 0 [])) [
          | none ↦ fail (bad_number (get_or addresses 0 []))
          | some a ↦ entry_from a addresses sections
        ])
    else ok none

unfoldable pub entry_of_line : Bytes → Outcome Error (Option Entry)
unfolding entry_of_sections
entry_of_line line = entry_of_sections (split b' ' line)
