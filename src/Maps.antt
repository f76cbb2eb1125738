-- ===== src/Maps.antt =====
-- maps_reader.go: the entries of /proc/pid/maps. The file's content is an argument, with the
-- error of reading it.
mod Line
pub mod Ends
pub mod Hex
pub mod RoundTrip
mod Tests
pub use Line.{Entry, entry}
unfoldable pub use Line.{entry_of_line, is_entry}
use watchmaker.Prelude.{ℕ, ◌≡◌, List, [], ◌∷◌, ◌++◌, Option, none, some}
use watchmaker.Prelude.Outcome.{Outcome, ok, fail, panic, hung}
use watchmaker.Go.Text.{Bytes, split}
use watchmaker.Errors.{Error}

-- The loop over the lines, with the entries so far.
unfoldable pub read_lines : List Entry → List Bytes → Outcome Error (List Entry)
read_lines entries [] = ok entries
read_lines entries (line ∷ lines) = elim (entry_of_line line) [
  | ok none ↦ read_lines entries lines
  | ok (some e) ↦ read_lines (entries ++ e ∷ []) lines
  | fail e ↦ fail e
  | panic ↦ panic
  | hung ↦ hung
]

-- `ReadMaps`, on what `os.ReadFile` returns.
unfoldable pub read_maps : Outcome Error Bytes → Outcome Error (List Entry)
unfolding read_lines entry_of_line
read_maps (ok content) = read_lines [] (split b'\n' content)
read_maps (fail e) = fail e
read_maps panic = panic
read_maps hung = hung
