-- ===== src/FakeImage/Vdso.antt =====
-- `FindVDSOEntry` finds the last entry of its name.
use watchmaker.Prelude.{◌≡◌, refl, List, [], ◌∷◌, ◌++◌, true, false, none, some}
use watchmaker.Prelude.Outcome.{ok, fail}
use watchmaker.Go.Text.{equal}
use watchmaker.Errors.{no_vdso}
use watchmaker.Maps.{Entry}
use watchmaker.FakeImage.Image.{vdso_entry_name, find_last, find_vdso_entry}

-- No entry has the name.
abbrev pub Lacks : List Entry → Type 0
Lacks [] = Unit
Lacks (e ∷ es) = (equal e.path vdso_entry_name ≡ false) × Lacks es

find_last-Lacks : (es : List Entry) → Lacks es → find_last es ≡ none
unfolding find_last
find_last-Lacks [] h = refl
find_last-Lacks (e ∷ es) h = rw (find_last-Lacks es h.1, h.0, find_last) refl

find_last-append :
    (before after : List Entry) (e : Entry)
    → equal e.path vdso_entry_name ≡ true
    → Lacks after
    → find_last (before ++ e ∷ after) ≡ some e
unfolding find_last
find_last-append [] after e named h = rw (find_last-Lacks after h, named, find_last) refl
find_last-append (b ∷ before) after e named h =
    rw (find_last-append before after e named h, find_last) refl

-- If no entry has the name of the vDSO, `find_vdso_entry` reports that there is none.
pub find_vdso_entry-none : (es : List Entry) → Lacks es → find_vdso_entry es ≡ fail no_vdso
unfolding find_vdso_entry
find_vdso_entry-none es h = rw (find_last-Lacks es h, find_vdso_entry) refl

-- `find_vdso_entry` returns an entry that has the name of the vDSO and behind which no entry has
-- it, whatever the entries before it are.
pub find_vdso_entry-last :
    (before after : List Entry) (e : Entry)
    → equal e.path vdso_entry_name ≡ true
    → Lacks after
    → find_vdso_entry (before ++ e ∷ after) ≡ ok e
unfolding find_vdso_entry
find_vdso_entry-last before after e named h =
    rw (find_last-append before after e named h, find_vdso_entry) refl
