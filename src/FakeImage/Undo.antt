-- ===== src/FakeImage/Undo.antt =====
-- `JumpToFakeFunc` and `TryReWriteFakeImage`: what the second leaves of the first.
use watchmaker.Prelude.{
  ℕ, zero, suc, ◌+◌, ◌-◌, ◌%◌, ◌≤◌, ◌<◌, ◌≡◌, refl, sym, ap, ◌∙◌, subst, ◌++◌, none, some, arith,
  length, get_or, ltb, append-nil, if◌then◌else◌,
}
use watchmaker.Prelude.Outcome.{ok, fail, panic, hung}
use watchmaker.Prelude.State.{Ran}
use watchmaker.Prelude.Yields.{
  Yields, on_ok, on_fail, on_panic, on_hung, mono, bind, zoomed, yields_at,
}
use watchmaker.Go.Text.{Bytes}
use watchmaker.Go.Words.{two_64}
use watchmaker.Errors.{Error}
use watchmaker.Kernel.{Arch, amd64, arm64, Kernel}
use watchmaker.Kernel.Laws.{Memory, patch, slice, View, Laws}
use watchmaker.Kernel.Laws.Patches.{length-slice, get_or-slice, get_or-append}
use watchmaker.Ptrace.Program.{TracedProgram, Session, session}
use watchmaker.Ptrace.Memory.{zeros, aligned_size, align_buffer, ptrace_write_slice}
use watchmaker.Ptrace.Poke.{
  Poked, ptrace_write_slice-Poked, align_buffer-append, length-align_buffer, aligned_size_bounds,
}
use watchmaker.Ptrace.Symbols.{jump_code, jump_to_fake_func}
use watchmaker.FakeImage.Image.{FakeImage, Scene, try_rewrite_fake_image}

-- The bytes at `addr` replaced, and all else as before.
pub record Written {W : Type 0} (v : View W) (s : Session W) (addr : ℕ) (bytes : Bytes)
    (t : Session W) : Type 0 where
  pub memory : v.memory t.world ≡ patch (v.memory s.world) addr bytes
  pub regs : v.regs t.world ≡ v.regs s.world
  pub program : t.program ≡ s.program

Poked-Yields :
    {W : Type 0} {v : View W} {p : TracedProgram} {w : W} {addr : ℕ} {buffer : Bytes}
    (run : Ran Error (Session W) (Unit {0}))
    → Poked v p w addr buffer run
    → Yields (λ _ t. Written v (session w p) addr buffer t) run
Poked-Yields {v} {w} {addr} {buffer} (ok tt, s) h =
    on_ok (record { memory = h.complete refl; regs = h.same_regs; program = h.same_program })
Poked-Yields (fail e, s) h = on_fail
Poked-Yields (panic, s) h = on_panic
Poked-Yields (hung, s) h = on_hung

-- A buffer of whole words needs no padding.
align_buffer-whole : (b : Bytes) → length b % 8 ≡ 0 → align_buffer b ≡ b
align_buffer-whole b h =
    let exact : aligned_size (length b) - length b ≡ 0 =
      omega (arith, aligned_size_bounds (length b)) in
    align_buffer-append b ∙ ap (λ n. b ++ zeros n) exact ∙ append-nil b

length-jump_code : (arch : Arch) (target : ℕ) → length (jump_code arch target) ≡ 16
unfolding jump_code
length-jump_code amd64 target = refl
length-jump_code arm64 target = refl

module _ {W : Type 0} {k : Kernel W} (arch : Arch) (p : TracedProgram) {v : View W}
    (laws : Laws k p.pid v) where
  jump_to_fake_func-Written :
      (w : W) (addr target : ℕ)
      → addr + 16 ≤ two_64
      → Yields
          (λ _ t. Written v (session w p) addr (jump_code arch target) t)
          (jump_to_fake_func k arch addr target (session w p))
  unfolding jump_to_fake_func
  jump_to_fake_func-Written w addr target fits =
      let code = jump_code arch target in
      let size = length-jump_code arch target in
      let whole = align_buffer-whole code (omega (arith, size)) in
      let room : addr + aligned_size (length code) ≤ two_64 =
        omega (arith, size, aligned_size_bounds (length code)) in
      mono
        (Poked-Yields (ptrace_write_slice k addr code (session w p))
          (ptrace_write_slice-Poked p laws w addr code room))
        λ _ t h. subst (λ b. Written v (session w p) addr b t) whole h

module _ {W : Type 0} {k : Kernel W} {v : View W} where
  -- `TryReWriteFakeImage` with a saved code that succeeds.
  try_rewrite-Written :
      (s : Session W) (laws : Laws k s.program.pid v) (it : FakeImage) (code : Bytes)
      → it.origin_func_code ≡ some code
      → it.origin_address + aligned_size (length code) ≤ two_64
      → Yields
          (λ _ t.
            Written v s it.origin_address (align_buffer code) t.session
            × (t.image.origin_func_code ≡ none))
          (try_rewrite_fake_image k (record { session = s; image = it }))
  unfolding try_rewrite_fake_image
  try_rewrite-Written s laws it code e fits =
      rw (e, try_rewrite_fake_image)
        (bind
          (zoomed
            {R = λ _ (u : Scene W). Written v s it.origin_address (align_buffer code) u.session}
            (λ t. record { session = t; image = record it { origin_func_code = some code } })
            (Poked-Yields (ptrace_write_slice k it.origin_address code s)
              (ptrace_write_slice-Poked s.program laws s.world it.origin_address code fits))
            (λ _ t h. h))
          (λ _ u h. on_ok (h, refl)))

-- The memory where the code of `size` bytes at `addr` has been written back over the jump `code`:
-- the code is as it was in `m`, then come zeros up to a whole word, then what is left of the jump.
pub record Undone (m : Memory) (addr size : ℕ) (code : Bytes) (m' : Memory) : Type 0 where
  pub inside : (x : ℕ) → addr ≤ x → x < addr + size → m' x ≡ m x
  pub padding : (x : ℕ) → addr + size ≤ x → x < addr + aligned_size size → m' x ≡ 0
  pub left :
      (x : ℕ)
      → addr + aligned_size size ≤ x
      → x < addr + length code
      → m' x ≡ get_or code (x - addr) 0
  pub before : (x : ℕ) → x < addr → m' x ≡ m x
  pub behind : (x : ℕ) → addr + aligned_size size ≤ x → addr + length code ≤ x → m' x ≡ m x

get_or-zeros : (n i : ℕ) → get_or (zeros n) i 0 ≡ 0
get_or-zeros zero i = refl
get_or-zeros (suc n) zero = refl
get_or-zeros (suc n) (suc i) = get_or-zeros n i

module _ (m : Memory) (addr size : ℕ) (code : Bytes) where
  abbrev saved : Bytes
  saved = slice m addr size

  length-saved : length (align_buffer saved) ≡ aligned_size size
  length-saved = length-align_buffer saved ∙ ap aligned_size (length-slice m addr size)

  get_or-saved :
      (i : ℕ) → get_or (align_buffer saved) i 0 ≡ (if ltb i size then get_or saved i 0 else 0)
  get_or-saved i =
      let pad = aligned_size (length saved) - length saved in
      ground (
        arith,
        ap (λ b. get_or b i 0) (align_buffer-append saved),
        get_or-append saved (zeros pad) i,
        get_or-zeros pad (i - length saved),
        length-slice m addr size,
      )

  get_or-inside : (x : ℕ) → addr ≤ x → x < addr + size → get_or saved (x - addr) 0 ≡ m x
  get_or-inside x h g = get_or-slice m addr size (x - addr) (omega arith) ∙ ap m (omega arith)

  Undone-patch : Undone m addr size code (patch (patch m addr code) addr (align_buffer saved))
  Undone-patch = record {
    inside = λ x h g. ground (
      arith,
      length-saved,
      aligned_size_bounds size,
      get_or-saved (x - addr),
      get_or-inside x h g,
    );
    padding = λ x h g. ground (arith, length-saved, get_or-saved (x - addr));
    left = λ x h g. ground (arith, length-saved);
    before = λ x h. ground (arith, length-saved);
    behind = λ x h g. ground (arith, length-saved);
  }

module _ {W : Type 0} {k : Kernel W} (arch : Arch) (p : TracedProgram) {v : View W}
    (laws : Laws k p.pid v) where
  -- If `jump_to_fake_func` succeeds on a function, and then `try_rewrite_fake_image` on the image
  -- that has saved the function's `size` bytes as they were, then those bytes are as they were,
  -- those up to a whole word are zero, those of the jump behind them are still the jump's, and
  -- no other byte has changed; the registers are the same, and the image has no saved code left.
  -- The condition is that the jump and the saved code fit into the address space.
  pub try_rewrite-Undone :
      (w : W) (target size : ℕ) (it : FakeImage) (s : Session W) (t : Scene W)
      → it.origin_address + 16 ≤ two_64
      → it.origin_address + aligned_size size ≤ two_64
      → it.origin_func_code ≡ some (slice (v.memory w) it.origin_address size)
      → jump_to_fake_func k arch it.origin_address target (session w p) ≡ (ok tt, s)
      → try_rewrite_fake_image k (record { session = s; image = it }) ≡ (ok tt, t)
      → Undone
          (v.memory w)
          it.origin_address
          size
          (jump_code arch target)
          (v.memory t.session.world)
        × (v.regs t.session.world ≡ v.regs w)
        × (t.image.origin_func_code ≡ none)
  try_rewrite-Undone w target size it s t room fits kept jumped undone =
      let addr = it.origin_address in
      let m = v.memory w in
      let first = yields_at (jump_to_fake_func-Written arch p laws w addr target room) jumped in
      let laws' : Laws k s.program.pid v = subst (λ q. Laws k q.pid v) (sym first.program) laws in
      let fits' : addr + aligned_size (length (slice m addr size)) ≤ two_64 =
        subst (λ n. addr + aligned_size n ≤ two_64) (sym (length-slice m addr size)) fits in
      let (second, cleared) =
        yields_at (try_rewrite-Written s laws' it (slice m addr size) kept fits') undone in
      (
        subst (Undone m addr size (jump_code arch target))
            (sym (
              second.memory
              ∙ ap (λ n. patch n addr (align_buffer (slice m addr size))) first.memory))
            (Undone-patch m addr size (jump_code arch target)),
        second.regs ∙ first.regs,
        cleared,
      )
