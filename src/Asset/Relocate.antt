-- ===== src/Asset/Relocate.antt =====
-- `AssetLD` of the two architectures: one relocation is resolved, and room is made for its
-- variable at the end of the content.
use watchmaker.Prelude.{
  ℕ, ◌+◌, ◌-◌, ◌*◌, ◌/◌, ◌%◌, ◌^◌, List, [], ◌∷◌, ◌++◌, leb, bit_and, bit_or, if◌then◌else◌, length,
  take, drop, replicate,
}
use mathlib.Core.List.{reverse}
use watchmaker.Prelude.Outcome.{Outcome, ok, panic}
use watchmaker.Go.Text.{Bytes, equal}
use watchmaker.Errors.{Error}
use watchmaker.Elf.{Endian, little, big}
use watchmaker.Kernel.{Arch, amd64, arm64}
use watchmaker.Ptrace.Memory.{le_bytes, of_le_bytes}
use watchmaker.FakeImage.{var_length}

abbrev pub two_32 : ℕ
two_32 = 0x1_0000_0000

-- `elf.Rela64`; the addend is the 64-bit pattern of an `int64`.
pub record Rela : Type 0 where
  pub off : ℕ
  pub info : ℕ
  pub addend : ℕ

-- `imageContent` and `imageOffset`.
pub record Asset : Type 0 where
  pub content : Bytes
  pub offset : List (Bytes × ℕ)

-- `imageOffset[name] = v`.
unfoldable pub set_key : Bytes → ℕ → List (Bytes × ℕ) → List (Bytes × ℕ)
set_key key v [] = (key, v) ∷ []
set_key key v ((k, w) ∷ kvs) = if equal k key then (k, v) ∷ kvs else (k, w) ∷ set_key key v kvs

-- `byteorder.PutUint32`, and the numbers that `byteorder` reads.
abbrev pub uint_bytes : Endian → ℕ → ℕ → Bytes
uint_bytes little n v = le_bytes n v
uint_bytes big n v = reverse (le_bytes n v)

abbrev pub uint_of : Endian → Bytes → ℕ
uint_of little bytes = of_le_bytes bytes
uint_of big bytes = of_le_bytes (reverse bytes)

-- The bytes from `at` on replaced; within the content.
abbrev pub overwrite : Bytes → ℕ → Bytes → Bytes
overwrite content at bytes = take at content ++ (bytes ++ drop (at + length bytes) content)

-- `uint32(len(*imageContent)) - uint32(rela.Off) + uint32(rela.Addend)`.
unfoldable pub target_offset : ℕ → Rela → ℕ
target_offset size rela =
    (size % two_32 + (two_32 - rela.off % two_32) + rela.addend % two_32) % two_32

-- `uint32(int(instr) & ^((1<<19-1)<<5)) | ((targetOffset & (1<<19 - 1)) << 5)`.
unfoldable pub patch_imm19 : ℕ → ℕ → ℕ
patch_imm19 instr target =
    bit_or (bit_and instr (two_32 - 1 - (2 ^ 19 - 1) * 2 ^ 5)) (bit_and target (2 ^ 19 - 1) * 2 ^ 5)

-- The word that is put at the relocation's place.
unfoldable pub relocated : Arch → Endian → Bytes → Rela → ℕ
unfolding target_offset patch_imm19
relocated amd64 order content rela = target_offset (length content) rela
relocated arm64 order content rela =
    patch_imm19 (uint_of order (take 4 (drop rela.off content)))
      (target_offset (length content) rela / 2 ^ 2)

-- `AssetLD`. A place outside of the content is out of range. (Go would also accept one behind the
-- length of the slice and inside its capacity.)
unfoldable pub asset_ld : Arch → Endian → Rela → Bytes → Asset → Outcome Error Asset
unfolding relocated set_key
asset_ld arch order rela name a =
    if leb (rela.off + 4) (length a.content)
    then ok (record {
      content =
          overwrite a.content rela.off (uint_bytes order 4 (relocated arch order a.content rela))
          ++ replicate (var_length arch) 0;
      offset = set_key name (length a.content) a.offset;
    })
    else panic
