-- ===== src/Maps/RoundTrip.antt =====
-- `ReadMaps` reads back the lines that the kernel prints (`man proc`): an address range, the
-- permissions, the offset, the device, the inode, and a name behind any number of blanks.
use watchmaker.Prelude.{
  ℕ, zero, suc, ◌-◌, ◌^◌, ◌<◌, ◌≡◌, ◌≢◌, refl, sym, ap, ◌∙◌, List, [], ◌∷◌, ◌++◌, map, none, some,
  arith, length, length-append, get_or, replicate, append_assoc, append-nil,
}
use watchmaker.Prelude.Outcome.{ok}
use watchmaker.Go.Text.{Bytes, Free, split, split-append, split-Free}
use watchmaker.Go.Strconv.{parse_uint}
use watchmaker.Go.Words.{two_64}
use watchmaker.Maps.Hex.{hex, parse_uint-hex, Free-append, Free-hex}
use watchmaker.Maps.Line.{Entry, entry, path_of, entry_from, entry_of_line, entry_of_sections}
use watchmaker.Maps.{read_lines, read_maps}

get_or-last {ℓ} : {A : Type ℓ} (xs : List A) (x d : A) → get_or (xs ++ x ∷ []) (length xs) d ≡ x
get_or-last [] x d = refl
get_or-last (y ∷ xs) x d = get_or-last xs x d

-- A number as the kernel prints it, with at least one digit.
pub record Hex : Type 0 where
  pub width : ℕ
  pub value : ℕ
  pub some_digit : 0 < width
  pub wide : value < 16 ^ width
  pub fits : value < two_64

abbrev pub hex_text : Hex → Bytes
hex_text h = hex h.width h.value

-- One line of the file; `gap` counts the blanks behind the one that follows the inode.
pub record Line : Type 0 where
  pub start_hex : Hex
  pub end_hex : Hex
  pub offset_hex : Hex
  pub perms : Bytes
  pub device : Bytes
  pub inode : Bytes
  pub gap : ℕ
  pub name : Bytes

abbrev pub All {ℓ κ} : {A : Type ℓ} → (A → Type κ) → List A → Type κ
All P [] = Unit
All P (x ∷ xs) = P x × All P xs

-- Without blanks and newlines.
abbrev pub IsWord : Bytes → Type 0
IsWord s = Free b' ' s × Free b'\n' s

abbrev pub IsLine : Line → Type 0
IsLine l = IsWord l.perms × IsWord l.device × IsWord l.inode × IsWord l.name

abbrev pub range_text : Line → Bytes
range_text l = hex_text l.start_hex ++ b'-' ∷ hex_text l.end_hex

abbrev pub line_text : Line → Bytes
line_text l =
    range_text l
    ++ b' '
      ∷ (l.perms
          ++ b' '
            ∷ (hex_text l.offset_hex
                ++ b' '
                  ∷ (l.device ++ b' ' ∷ (l.inode ++ b' ' ∷ (replicate l.gap b' ' ++ l.name)))))

abbrev pub file_text : List Line → Bytes
file_text [] = []
file_text (l ∷ ls) = line_text l ++ b'\n' ∷ file_text ls

abbrev pub line_entry : Line → Entry
line_entry l = entry l.start_hex.value l.end_hex.value l.perms l.offset_hex.value l.name

parse_uint-hex_text : (h : Hex) → parse_uint 16 (hex_text h) ≡ some h.value
parse_uint-hex_text h = parse_uint-hex h.width h.value h.some_digit h.wide h.fits

Free-hex_text : (sep : ℕ) (h : Hex) → sep < b'0' → Free sep (hex_text h)
Free-hex_text sep h = Free-hex sep h.width h.value

split_blanks :
    (gap : ℕ) (name : Bytes)
    → Free b' ' name
    → split b' ' (replicate gap b' ' ++ name) ≡ replicate gap [] ++ name ∷ []
unfolding split
split_blanks zero name f = split-Free b' ' name f
split_blanks (suc gap) name f = rw (split_blanks gap name f)

abbrev line_sections : Line → List Bytes
line_sections l =
    range_text l
    ∷ l.perms
    ∷ hex_text l.offset_hex
    ∷ l.device
    ∷ l.inode
    ∷ (replicate l.gap [] ++ l.name ∷ [])

-- One word more in front of a text that is split.
split_word :
    (w rest : Bytes) {sections : List Bytes}
    → Free b' ' w
    → split b' ' rest ≡ sections
    → split b' ' (w ++ b' ' ∷ rest) ≡ w ∷ sections
split_word w rest f e = split-append b' ' w rest f ∙ ap (◌∷◌ w) e

range-Free : (l : Line) → Free b' ' (range_text l)
range-Free l =
    Free-append b' ' (hex_text l.start_hex) (b'-' ∷ hex_text l.end_hex)
      (Free-hex_text b' ' l.start_hex (omega arith))
      (omega arith, Free-hex_text b' ' l.end_hex (omega arith))

split-line_text : (l : Line) → IsLine l → split b' ' (line_text l) ≡ line_sections l
split-line_text l (p, d, i, n) = split_word (range_text l) _ (range-Free l) (
    split_word l.perms _ p.0 (
      split_word (hex_text l.offset_hex) _ (Free-hex_text b' ' l.offset_hex (omega arith))
        (split_word l.device _ d.0 (split_word l.inode _ i.0 (split_blanks l.gap l.name n.0)))))

split-range_text :
    (l : Line) → split b'-' (range_text l) ≡ hex_text l.start_hex ∷ hex_text l.end_hex ∷ []
split-range_text l =
    split-append b'-' (hex_text l.start_hex) _ (Free-hex_text b'-' l.start_hex (omega arith))
    ∙ ap (◌∷◌ (hex_text l.start_hex))
        (split-Free b'-' (hex_text l.end_hex) (Free-hex_text b'-' l.end_hex (omega arith)))

path_of-last :
    (sections : List Bytes)
    → 5 < length sections
    → path_of sections ≡ get_or sections (length sections - 1) []
unfolding path_of
path_of-last sections h = ground arith

path_of-line_sections : (l : Line) → path_of (line_sections l) ≡ l.name
path_of-line_sections l =
    let gaps : List Bytes = replicate l.gap [] in
    let count = length-append gaps (l.name ∷ []) in
    let last : length (line_sections l) - 1 ≡ suc (suc (suc (suc (suc (length gaps))))) =
      omega (arith, count) in
    path_of-last (line_sections l) (omega (arith, count))
    ∙ ap (λ i. get_or (line_sections l) i []) last
    ∙ get_or-last gaps l.name []

entry_from-line_sections :
    (l : Line)
    → entry_from l.start_hex.value
        (hex_text l.start_hex ∷ hex_text l.end_hex ∷ [])
        (line_sections l)
      ≡ ok (some (line_entry l))
unfolding entry_from
entry_from-line_sections l = ground (
  arith,
  parse_uint-hex_text l.end_hex,
  parse_uint-hex_text l.offset_hex,
  path_of-line_sections l,
)

entry_of_sections-line_sections :
    (l : Line) → entry_of_sections (line_sections l) ≡ ok (some (line_entry l))
unfolding entry_of_sections
entry_of_sections-line_sections l = ground (
  arith,
  split-range_text l,
  parse_uint-hex_text l.start_hex,
  ap (λ (a : List Bytes). entry_from l.start_hex.value a (line_sections l)) (split-range_text l),
  entry_from-line_sections l,
)

entry_of_line-line_text :
    (l : Line) → IsLine l → entry_of_line (line_text l) ≡ ok (some (line_entry l))
unfolding entry_of_line
entry_of_line-line_text l h =
    ap entry_of_sections (split-line_text l h) ∙ entry_of_sections-line_sections l

Free-word :
    (sep : ℕ) (w : Bytes) (c : ℕ) (rest : Bytes)
    → Free sep w
    → c ≢ sep
    → Free sep rest
    → Free sep (w ++ c ∷ rest)
Free-word sep w c rest f ne g = Free-append sep w (c ∷ rest) f (ne, g)

blanks-Free : (gap : ℕ) (name : Bytes) → Free b'\n' name → Free b'\n' (replicate gap b' ' ++ name)
blanks-Free zero name f = f
blanks-Free (suc gap) name f = (omega arith, blanks-Free gap name f)

line_text-Free : (l : Line) → IsLine l → Free b'\n' (line_text l)
line_text-Free l (p, d, i, n) = Free-word b'\n' (range_text l) b' ' _ range (omega arith) (
    Free-word b'\n' l.perms b' ' _ p.1 (omega arith) (
      Free-word b'\n' (hex_text l.offset_hex) b' ' _
        (Free-hex_text b'\n' l.offset_hex (omega arith)) (omega arith)
        (Free-word b'\n' l.device b' ' _ d.1 (omega arith)
          (Free-word b'\n' l.inode b' ' _ i.1 (omega arith) (blanks-Free l.gap l.name n.1)))))
  where
    range : Free b'\n' (range_text l)
    range =
        Free-word b'\n' (hex_text l.start_hex) b'-' _
          (Free-hex_text b'\n' l.start_hex (omega arith)) (omega arith)
          (Free-hex_text b'\n' l.end_hex (omega arith))

split-file_text :
    (ls : List Line) → All IsLine ls → split b'\n' (file_text ls) ≡ map line_text ls ++ [] ∷ []
split-file_text [] h = split-Free b'\n' [] tt
split-file_text (l ∷ ls) h =
    split-append b'\n' (line_text l) (file_text ls) (line_text-Free l h.0)
    ∙ ap (◌∷◌ (line_text l)) (split-file_text ls h.1)

-- The text behind the last newline is no entry.
entry_of_line-nil : entry_of_line [] ≡ ok none
unfolding entry_of_line split
entry_of_line-nil = refl

read_lines-line_text :
    (entries : List Entry) (ls : List Line)
    → All IsLine ls
    → read_lines entries (map line_text ls ++ [] ∷ []) ≡ ok (entries ++ map line_entry ls)
unfolding read_lines
read_lines-line_text entries [] h =
    rw (entry_of_line-nil, read_lines) (ap ok (sym (append-nil entries)))
read_lines-line_text entries (l ∷ ls) h =
    rw (entry_of_line-line_text l h.0, read_lines)
      (read_lines-line_text (entries ++ line_entry l ∷ []) ls h.1
        ∙ ap ok (append_assoc entries (line_entry l ∷ []) (map line_entry ls)))

-- `read_maps` of a file that the kernel prints, any number of lines with their hexadecimal numbers
-- below 2 ^ 64 and no blank or newline in their words, is one entry for each line, in order, with
-- the line's numbers, permissions and name.
pub read_maps-file_text :
    (ls : List Line) → All IsLine ls → read_maps (ok (file_text ls)) ≡ ok (map line_entry ls)
unfolding read_maps
read_maps-file_text ls h = ap (read_lines []) (split-file_text ls h) ∙ read_lines-line_text [] ls h
