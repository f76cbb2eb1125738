-- ===== src/Elf.antt =====
-- What the program reads of an ELF file. `debug/elf` decodes the bytes: the decoder is a parameter
-- of all that uses it, of type `ElfReader`.
use watchmaker.Prelude.{ℕ, Bool, List}
use watchmaker.Prelude.Outcome.{Outcome}
use watchmaker.Go.Text.{Bytes}
use watchmaker.Errors.{Error}

-- A program header; `is_load` is `prog.Type == elf.PT_LOAD`.
pub record Prog : Type 0 where
  pub is_load : Bool
  pub vaddr : ℕ
  pub off : ℕ

pub record Symbol : Type 0 where
  pub name : Bytes
  pub value : ℕ
  pub size : ℕ

-- The types of sections that the program tells apart.
pub data SectionType : Type 0 where
  progbits rela other : SectionType

-- `data` is what `Section.Data` returns.
pub record Section : Type 0 where
  pub kind : SectionType
  pub name : Bytes
  pub content : Outcome Error Bytes

pub data Machine : Type 0 where
  x86_64 aarch64 unsupported : Machine

-- `ByteOrder`.
pub data Endian : Type 0 where
  little big : Endian

pub record ElfFile : Type 0 where
  pub byte_order : Endian
  pub machine : Machine
  pub sections : List Section
  pub progs : List Prog
  pub symbols : Outcome Error (List Symbol)
  pub dynamic_symbols : Outcome Error (List Symbol)

abbrev pub ElfReader : Type 0
ElfReader = Bytes → Outcome Error ElfFile
