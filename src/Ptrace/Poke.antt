-- ===== src/Ptrace/Poke.antt =====
-- `PtraceWriteSlice` writes the aligned buffer, or a part of it in whole words.
use watchmaker.Prelude.{
  ℕ, zero, suc, ◌+◌, ◌-◌, ◌*◌, ◌%◌, ◌≤◌, ◌<◌, ◌≡◌, ◌⊎◌, refl, sym, ap, ◌∙◌, inl, inr, ◌++◌, false,
  arith, leb, Bool-cases, length, length-append, length-take, length-replicate, take, drop,
  take-add, take-of_le, drop-replicate,
}
use watchmaker.Prelude.Outcome.{ok, fail, panic, hung, is_ok}
use watchmaker.Prelude.State.{Ran, raise, and_then, after_error}
use watchmaker.Go.Text.{Bytes}
use watchmaker.Go.Words.{two_64}
use watchmaker.Errors.{Error, wrapped}
use watchmaker.Kernel.{Kernel}
use watchmaker.Kernel.Laws.{Memory, patch, View, Laws}
use watchmaker.Kernel.Laws.Patches.{patch-patch, patch-nil}
use watchmaker.Ptrace.Program.{TracedProgram, Session, session, P}
use watchmaker.Ptrace.Memory.{
  ptr_size, zeros, aligned_size, align_buffer, poke_loop, ptrace_write_slice,
}

pub aligned_size_bounds :
    (n : ℕ) → (n ≤ aligned_size n) × (aligned_size n < n + 8) × (aligned_size n % 8 ≡ 0)
unfolding aligned_size
aligned_size_bounds n = ground arith

-- The buffer with zeros up to a whole number of words.
pub align_buffer-append :
    (b : Bytes) → align_buffer b ≡ b ++ zeros (aligned_size (length b) - length b)
unfolding align_buffer
align_buffer-append b =
    let n = aligned_size (length b) in
    let pad = zeros (n - length b) in
    let whole : length (b ++ pad) ≤ length (zeros n) = omega (
      arith,
      length-append b pad,
      length-replicate (n - length b) (zero),
      length-replicate n (zero),
      aligned_size_bounds (length b),
    ) in
    ap (λ t. take (length (zeros n)) (b ++ t)) (drop-replicate (length b) n 0)
    ∙ take-of_le (length (zeros n)) (b ++ pad) whole

pub length-align_buffer : (b : Bytes) → length (align_buffer b) ≡ aligned_size (length b)
length-align_buffer b = rw align_buffer-append (
    omega (
      arith,
      length-append b (zeros (aligned_size (length b) - length b)),
      length-replicate (aligned_size (length b) - length b) zero,
      aligned_size_bounds (length b),
    ))

-- A byte behind a call that has failed in the round that starts at `count`: as the rounds before
-- have left it, or as this round would.
abbrev pub Torn : Memory → ℕ → Bytes → ℕ → Memory → Type 0
Torn m addr buffer count after =
    (x : ℕ)
    → (after x ≡ patch m addr (take count buffer) x)
      ⊎ (after x ≡ patch m addr (take (count + 8) buffer) x)

-- After a run from the world `w`: `buffer` is written, unless there was an error; then so are its
-- first `count` bytes, some of the next eight at most, and no others.
pub record Poked {W : Type 0} (v : View W) (p : TracedProgram) (w : W) (addr : ℕ) (buffer : Bytes)
    (run : Ran Error (Session W) (Unit {0})) : Type 0 where
  pub count : ℕ
  pub within : count ≤ length buffer
  pub words : count % 8 ≡ 0
  pub written : Torn (v.memory w) addr buffer count (v.memory run.1.world)
  pub complete : run.0 ≡ ok tt → v.memory run.1.world ≡ patch (v.memory w) addr buffer
  pub same_program : run.1.program ≡ p
  pub same_regs : v.regs run.1.world ≡ v.regs w

-- The word that a round writes.
abbrev word : ℕ → Bytes → Bytes
word wrote buffer = take ptr_size (drop wrote buffer)

module _ {W : Type 0} {k : Kernel W} (p : TracedProgram) {v : View W} (laws : Laws k p.pid v)
    (w0 : W) (addr : ℕ) (buffer : Bytes) (fits : addr + length buffer ≤ two_64) where
  -- One round: eight bytes more.
  next_word :
      (w : W) (wrote : ℕ)
      → v.memory w ≡ patch (v.memory w0) addr (take wrote buffer)
      → wrote + 8 ≤ length buffer
      → patch (v.memory w) ((addr + wrote) % two_64) (word wrote buffer)
        ≡ patch (v.memory w0) addr (take (wrote + 8) buffer)
  next_word w wrote so_far room =
      let place : (addr + wrote) % two_64 ≡ addr + length (take wrote buffer) =
        omega (arith, length-take wrote buffer) in
      rw (so_far, place)
        (patch-patch (v.memory w0) addr (take wrote buffer) (word wrote buffer)
          ∙ ap (patch (v.memory w0) addr) (sym (take-add wrote 8 buffer)))

  short_word : (wrote : ℕ) → length (word wrote buffer) ≤ 8
  short_word wrote = omega (arith, length-take 8 (drop wrote buffer))

  poked_word :
      (w : W) (wrote : ℕ)
      → v.memory w ≡ patch (v.memory w0) addr (take wrote buffer)
      → wrote + 8 ≤ length buffer
      → (k.poke_data p.pid ((addr + wrote) % two_64) (word wrote buffer) w).0 ≡ ok tt
      → v.memory (k.poke_data p.pid ((addr + wrote) % two_64) (word wrote buffer) w).1
        ≡ patch (v.memory w0) addr (take (wrote + 8) buffer)
  poked_word w wrote so_far room e =
      laws.poke w _ (word wrote buffer) (short_word wrote) e ∙ next_word w wrote so_far room

  poke-Torn :
      (w : W) (wrote : ℕ)
      → v.memory w ≡ patch (v.memory w0) addr (take wrote buffer)
      → wrote + 8 ≤ length buffer
      → is_ok (k.poke_data p.pid ((addr + wrote) % two_64) (word wrote buffer) w).0 ≡ false
      → Torn
          (v.memory w0)
          addr
          buffer
          wrote
          (v.memory (k.poke_data p.pid ((addr + wrote) % two_64) (word wrote buffer) w).1)
  poke-Torn w wrote so_far room e x =
      elim (laws.poke_fails w ((addr + wrote) % two_64) (word wrote buffer) (short_word wrote) e
        x) [
          | inl old ↦ inl (old ∙ ap (λ m. m x) so_far)
          | inr new ↦ inr (new ∙ ap (λ m. m x) (next_word w wrote so_far room))
        ]

  -- What follows the call of a round, by its outcome.
  behind_poke :
      (run : Ran Error W (Unit {0})) (wrote : ℕ) (rest : P W (Unit {0}))
      → wrote ≤ length buffer
      → wrote % 8 ≡ 0
      → (run.0 ≡ ok tt → Poked v p w0 addr buffer (rest (session run.1 p)))
      → (is_ok run.0 ≡ false → Torn (v.memory w0) addr buffer wrote (v.memory run.1))
      → v.regs run.1 ≡ v.regs w0
      → Poked v p w0 addr buffer
          (and_then (after_error (run.0, session run.1 p) (λ e. raise (wrapped e))) (λ _. rest))
  behind_poke (ok _, w) wrote rest le words on halted same = on refl
  behind_poke (fail e, w) wrote rest le words on halted same = record {
    count = wrote;
    within = le;
    words = words;
    written = halted refl;
    complete = λ e. absurd (cc);
    same_program = refl;
    same_regs = same;
  }
  behind_poke (panic, w) wrote rest le words on halted same = record {
    count = wrote;
    within = le;
    words = words;
    written = halted refl;
    complete = λ e. absurd (cc);
    same_program = refl;
    same_regs = same;
  }
  behind_poke (hung, w) wrote rest le words on halted same = record {
    count = wrote;
    within = le;
    words = words;
    written = halted refl;
    complete = λ e. absurd (cc);
    same_program = refl;
    same_regs = same;
  }

  poke_loop-Poked :
      (fuel : ℕ) (w : W) (wrote : ℕ)
      → wrote ≤ length buffer
      → wrote % 8 ≡ 0
      → length buffer % 8 ≡ 0
      → length buffer ≤ wrote + 8 * fuel
      → v.memory w ≡ patch (v.memory w0) addr (take wrote buffer)
      → v.regs w ≡ v.regs w0
      → Poked v p w0 addr buffer (poke_loop k fuel addr buffer wrote (session w p))
  unfolding poke_loop
  poke_loop-Poked zero w wrote le words whole enough so_far same = record {
    count = wrote;
    within = le;
    words = words;
    written = λ x. inl (ap (λ m. m x) so_far);
    complete = λ _. so_far ∙ ap (patch (v.memory w0) addr) (take-of_le wrote buffer (omega arith));
    same_program = refl;
    same_regs = same;
  }
  poke_loop-Poked (suc fuel) w wrote le words whole enough so_far same =
      elim (Bool-cases (leb (wrote + ptr_size) (length buffer))) [
        | inr stop ↦
            rw (stop, poke_loop)
              (record {
                count = wrote;
                within = le;
                words = words;
                written = λ x. inl (ap (λ m. m x) so_far);
                complete = λ _.
                    so_far ∙ ap (patch (v.memory w0) addr) (take-of_le wrote buffer (ground arith));
                same_program = refl;
                same_regs = same;
              })
        | inl more ↦
            let bytes = word wrote buffer in
            let at = (addr + wrote) % two_64 in
            rw (more, poke_loop)
              (behind_poke (k.poke_data p.pid at bytes w) wrote _ le words
                (λ e.
                  poke_loop-Poked fuel _ (wrote + ptr_size) (ground arith) (omega arith) whole
                    (omega arith) (poked_word w wrote so_far (ground arith) e)
                    (laws.poke_keeps w at bytes ∙ same))
                (poke-Torn w wrote so_far (ground arith)) (laws.poke_keeps w at bytes ∙ same))
      ]

module _ {W : Type 0} {k : Kernel W} (p : TracedProgram) {v : View W} (laws : Laws k p.pid v) where
  -- `PtraceWriteSlice` of a buffer whose words fit the address space writes the aligned buffer and
  -- nothing else, if it succeeds. If it fails, then it has written a number of whole words from the
  -- front, of the word behind them some bytes at most, and nothing else. It leaves the registers
  -- alone. The kernel is one whose poke of a word, if it fails, has written no other byte.
  pub ptrace_write_slice-Poked :
      (w : W) (addr : ℕ) (buffer : Bytes)
      → addr + aligned_size (length buffer) ≤ two_64
      → Poked v p w addr (align_buffer buffer) (ptrace_write_slice k addr buffer (session w p))
  unfolding ptrace_write_slice
  ptrace_write_slice-Poked w addr buffer fits =
      let size = length-align_buffer buffer in
      let whole = aligned_size_bounds (length buffer) in
      poke_loop-Poked p laws w addr (align_buffer buffer) (omega arith)
        (length (align_buffer buffer)) w 0 (omega arith) (omega arith) (omega arith) (omega arith)
        (sym (patch-nil (v.memory w) addr)) refl
