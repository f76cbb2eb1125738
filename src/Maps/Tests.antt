-- ===== src/Maps/Tests.antt =====
-- A memory map of two regions, the second with a name behind two blanks.
use watchmaker.Prelude.{ℕ, ◌≡◌, refl, [], ◌∷◌, map, arith, Bool, true, not, ◌&&◌, ◌==◌}
use watchmaker.Prelude.Outcome.{ok}
use watchmaker.Go.Text.{Bytes, codes, Free}
use watchmaker.Maps.{read_maps}
use watchmaker.Maps.RoundTrip.{Line, IsLine, IsWord, file_text, line_entry, read_maps-file_text}

abbrev stack : Line
stack = record {
  start_hex = record {
    width = 12;
    value = 0x7ffd_0000_0000;
    some_digit = omega arith;
    wide = omega arith;
    fits = omega arith;
  };
  end_hex = record {
    width = 12;
    value = 0x7ffd_0002_1000;
    some_digit = omega arith;
    wide = omega arith;
    fits = omega arith;
  };
  offset_hex = record {
    width = 8;
    value = 0;
    some_digit = omega arith;
    wide = omega arith;
    fits = omega arith;
  };
  perms = codes "rw-p";
  device = codes "00:00";
  inode = codes "0";
  gap = 0;
  name = [];
}

abbrev vdso : Line
vdso = record stack { perms = codes "r-xp"; gap = 1; name = codes "[vdso]" }

unfoldable lacks : ℕ → Bytes → Bool
lacks sep [] = true
lacks sep (c ∷ s) = not (c == sep) && lacks sep s

Free-lacks : (sep : ℕ) (s : Bytes) → lacks sep s ≡ true → Free sep s
unfolding lacks
Free-lacks sep [] h = tt
Free-lacks sep (c ∷ s) h = (ground arith, Free-lacks sep s (ground arith))

is_word : (s : Bytes) → lacks b' ' s ≡ true → lacks b'\n' s ≡ true → IsWord s
is_word s h g = (Free-lacks b' ' s h, Free-lacks b'\n' s g)

stack_words : IsLine stack
unfolding lacks
stack_words = (
  is_word (codes "rw-p") refl refl,
  is_word (codes "00:00") refl refl,
  is_word (codes "0") refl refl,
  (tt, tt),
)

vdso_words : IsLine vdso
unfolding lacks
vdso_words = (
  is_word (codes "r-xp") refl refl,
  is_word (codes "00:00") refl refl,
  is_word (codes "0") refl refl,
  is_word (codes "[vdso]") refl refl,
)

read_maps-file_text_example :
    read_maps (ok (file_text (stack ∷ vdso ∷ []))) ≡ ok (map line_entry (stack ∷ vdso ∷ []))
read_maps-file_text_example =
    read_maps-file_text (stack ∷ vdso ∷ []) (stack_words, (vdso_words, tt))
