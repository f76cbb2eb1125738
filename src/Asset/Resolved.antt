-- ===== src/Asset/Resolved.antt =====
-- What one relocation of an amd64 image comes to.
use watchmaker.Prelude.{ℕ, ◌+◌, ◌%◌, ◌≤◌, ◌≡◌, ◌++◌, some, length, take, drop, replicate}
use watchmaker.Go.Text.{Bytes}
use watchmaker.Elf.{Endian}
use watchmaker.Kernel.{amd64}
use watchmaker.FakeImage.{find_key}
use watchmaker.Asset.Relocate.{two_32, Rela, Asset, uint_bytes, uint_of, overwrite, relocated}
use watchmaker.Asset.Layout.{length-uint_bytes}

-- The relocated word, taken as a distance from its own place, reaches the room of the variable
-- but for the addend; the room is fresh and zero, and no other byte has changed.
pub record Resolved (order : Endian) (r : Rela) (name : Bytes) (a b : Asset) : Type 0 where
  pub reaches :
      (uint_of order (take 4 (drop r.off b.content)) + r.off) % two_32
      ≡ (length a.content + r.addend) % two_32
  pub in_table : find_key name b.offset ≡ some (length a.content)
  pub before : take r.off b.content ≡ take r.off a.content
  pub behind : drop (r.off + 4) b.content ≡ drop (r.off + 4) a.content ++ replicate 8 0

-- A content with four bytes replaced at `n`, and a tail.
module _ (content word tail : Bytes) (n : ℕ) (four : length word ≡ 4)
    (fits : n + 4 ≤ length content) where
  abbrev new_content : Bytes
  new_content = overwrite content n word ++ tail

module _ (order : Endian) (r : Rela) (name : Bytes) (a : Asset)
    (fits : r.off + 4 ≤ length a.content) where
  abbrev put_bytes : Bytes
  put_bytes = uint_bytes order 4 (relocated amd64 order a.content r)

  four_bytes : length put_bytes ≡ 4
  four_bytes = length-uint_bytes order (relocated amd64 order a.content r)
