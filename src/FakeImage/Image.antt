-- ===== src/FakeImage/Image.antt =====
-- `FakeImage`, and the methods that are given a traced program.
use watchmaker.Prelude.{
  ℕ, ◌+◌, ◌-◌, ◌*◌, ◌%◌, List, [], ◌∷◌, ◌&&◌, Option, none, some, ltb, leb, if◌then◌else◌, length,
  take,
}
use watchmaker.Prelude.Outcome.{Outcome, ok, fail}
use watchmaker.Prelude.State.{M, pure, raise, crash, ◌>>=◌, ◌>>◌, on_error, zoom}
use watchmaker.Go.Text.{Bytes, codes, equal}
use watchmaker.Go.Words.{two_64}
use watchmaker.Errors.{Error, wrapped, no_vdso, variable_space, no_variable}
use watchmaker.Elf.{ElfReader}
use watchmaker.Kernel.{Arch, amd64, arm64, Kernel}
use watchmaker.Maps.{Entry}
use watchmaker.Ptrace.Program.{Session, P}
use watchmaker.Ptrace.Memory.{read_slice, mmap_slice, ptrace_write_slice, write_uint64}
use watchmaker.Ptrace.Symbols.{find_symbol_in_entry, jump_to_fake_func}

-- `origin_func_code` and `fake_entry` are `none` for nil.
pub record FakeImage : Type 0 where
  pub symbol_name : Bytes
  pub content : Bytes
  pub offset : List (Bytes × ℕ)
  pub origin_func_code : Option Bytes
  pub origin_address : ℕ
  pub fake_entry : Option Entry

-- `NewFakeImage`.
abbrev pub new_fake_image : Bytes → Bytes → List (Bytes × ℕ) → FakeImage
new_fake_image name content offset = record {
  symbol_name = name;
  content = content;
  offset = offset;
  origin_func_code = none;
  origin_address = 0;
  fake_entry = none;
}

-- The world with the traced program, and the image.
pub record Scene (W : Type 0) : Type 0 where
  pub session : Session W
  pub image : FakeImage

abbrev pub I : Type 0 → Type 0 → Type 0
I W A = M Error (Scene W) A

module _ {W : Type 0} where
  abbrev pub traced : {A : Type 0} → P W A → I W A
  traced = zoom (λ s. s.session) (λ s t. record s { session = t })

  abbrev pub image : I W FakeImage
  image s = pure s.image s

  abbrev pub save_entry : Entry → I W (Unit {0})
  save_entry e s = pure tt (record s { image = record s.image { fake_entry = some e } })

  abbrev pub save_origin : Option Bytes → ℕ → I W (Unit {0})
  save_origin code addr s =
      pure tt
        (record s { image = record s.image { origin_func_code = code; origin_address = addr } })

-- Every error of the call is passed on in another form.
abbrev pub wrapping : {S A : Type 0} → M Error S A → M Error S A
wrapping m = on_error m (λ e. raise (wrapped e))

-- The value of a key; `offset[symbol]`.
unfoldable pub find_key : Bytes → List (Bytes × ℕ) → Option ℕ
find_key key [] = none
find_key key ((k, v) ∷ kvs) = if equal k key then some v else find_key key kvs

abbrev pub var_length : Arch → ℕ
var_length amd64 = 8
var_length arm64 = 16

abbrev pub vdso_entry_name : Bytes
vdso_entry_name = codes "[vdso]"

-- The loop of `FindVDSOEntry`: from the last entry to the first.
unfoldable pub find_last : List Entry → Option Entry
find_last [] = none
find_last (e ∷ es) = elim (find_last es) [
  | some found ↦ some found
  | none ↦ if equal e.path vdso_entry_name then some e else none
]

-- `FindVDSOEntry`.
unfoldable pub find_vdso_entry : List Entry → Outcome Error Entry
unfolding find_last
find_vdso_entry es = elim (find_last es) [ none ↦ fail no_vdso | some e ↦ ok e ]

module _ {W : Type 0} (k : Kernel W) where
  -- `TryReWriteFakeImage`.
  unfoldable pub try_rewrite_fake_image : I W (Unit {0})
  try_rewrite_fake_image = do
    it ← image
    elim it.origin_func_code [
      | none ↦ pure tt
      | some code ↦ do traced (ptrace_write_slice k it.origin_address code); save_origin none 0
    ]

-- A call whose error is only logged.
abbrev pub logged : {S : Type 0} → M Error S (Unit {0}) → M Error S (Unit {0})
logged m = on_error m (λ _. pure tt)

module _ {W : Type 0} (k : Kernel W) (arch : Arch) where
  -- `SetVarUint64`: on arm64 the variable stands behind a pointer to it.
  unfoldable pub write_var : Arch → ℕ → ℕ → P W (Unit {0})
  write_var amd64 addr value = write_uint64 k addr value
  write_var arm64 addr value = do
    write_uint64 k addr ((addr + 8) % two_64)
    write_uint64 k ((addr + 8) % two_64) value

  unfoldable pub set_var_uint64 : List (Bytes × ℕ) → Entry → Bytes → ℕ → P W (Unit {0})
  unfolding write_var
  set_var_uint64 offset e symbol value = elim (find_key symbol offset) [
    | none ↦ raise no_variable
    | some off ↦ write_var arch ((e.start_address + off) % two_64) value
  ]

  -- What `FindInjectedImage` makes of the memory of the entry. The two slices are out of range
  -- where the variables take more than the content, or the content more than the entry.
  unfoldable pub compare_content : ℕ → Entry → FakeImage → Bytes → I W (Option Entry)
  compare_content count e it found =
      if ltb (length it.content) (count * 8)
      then raise variable_space
      else (let fixed = length it.content - count * var_length arch in
          if leb (count * var_length arch) (length it.content) && leb fixed (length found)
          then pure (if equal (take fixed found) (take fixed it.content) then some e else none)
          else crash)

  -- `FindInjectedImage`.
  unfoldable pub find_injected_image : ℕ → I W (Option Entry)
  find_injected_image count = do
    it ← image
    elim it.fake_entry [
      | none ↦ pure none
      | some e ↦
          on_error
            (traced
                (read_slice k e.start_address ((e.end_address + two_64 - e.start_address) % two_64))
              >>= λ found. pure (some found))
            (λ _. pure none)
          >>= λ found. elim found [
            | none ↦ pure none
            | some bytes ↦ compare_content count e it bytes
          ]
    ]

module _ {W : Type 0} (k : Kernel W) (arch : Arch) (read_elf : ElfReader) where
  -- `InjectFakeImage`.
  unfoldable pub inject_fake_image : Entry → I W Entry
  inject_fake_image vdso = do
    it ← image
    fake ← wrapping (traced (mmap_slice k arch it.content))
    save_entry fake
    (addr, size) ← wrapping (traced (find_symbol_in_entry k arch read_elf it.symbol_name vdso))
    code ← wrapping (traced (read_slice k addr size))
    on_error (traced (jump_to_fake_func k arch addr fake.start_address))
        (λ e. logged (try_rewrite_fake_image k) >> raise (wrapped e))
    save_origin (some code) addr
    pure fake
