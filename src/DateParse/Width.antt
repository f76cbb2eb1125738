-- ===== src/DateParse/Width.antt =====
-- How many bytes a character takes.
use watchmaker.Prelude.{ℕ, ◌+◌, ◌≤◌, ◌<◌, [], ◌∷◌, arith, length}
use watchmaker.Go.Text.{Bytes}
use watchmaker.DateParse.Runes.{decode_rune, two_bytes, three_bytes, four_bytes}

decode-two : (c : ℕ) (s : Bytes) → (1 ≤ (two_bytes c s).1) × ((two_bytes c s).1 ≤ length s + 1)
unfolding two_bytes
decode-two c [] = ground arith
decode-two c (a ∷ s) = ground arith

decode-three :
    (c lo hi : ℕ) (s : Bytes)
    → (1 ≤ (three_bytes c lo hi s).1) × ((three_bytes c lo hi s).1 ≤ length s + 1)
unfolding three_bytes
decode-three c lo hi [] = ground arith
decode-three c lo hi (a ∷ []) = ground arith
decode-three c lo hi (a ∷ b ∷ s) = ground arith

decode-four :
    (c lo hi : ℕ) (s : Bytes)
    → (1 ≤ (four_bytes c lo hi s).1) × ((four_bytes c lo hi s).1 ≤ length s + 1)
unfolding four_bytes
decode-four c lo hi [] = ground arith
decode-four c lo hi (a ∷ []) = ground arith
decode-four c lo hi (a ∷ b ∷ []) = ground arith
decode-four c lo hi (a ∷ b ∷ d ∷ s) = ground arith

-- A character takes a byte at least, and no more than there are.
pub decode-width :
    (s : Bytes) → 0 < length s → (1 ≤ (decode_rune s).1) × ((decode_rune s).1 ≤ length s)
unfolding decode_rune
decode-width [] h = ground arith
decode-width (c ∷ s) h = grind (arith, decode-two, decode-three, decode-four)
