-- ===== src/Ptrace/Trace/Ends.antt =====
-- The loop of `Trace` ends: every listing that is not the last shows a thread not seen before, and
-- there are fewer of those than the kernel has thread ids.
use watchmaker.Prelude.{
  ℕ, zero, suc, ◌+◌, ◌-◌, ◌≤◌, ◌<◌, ◌≡◌, inl, inr, refl, sym, ap, ◌∙◌, subst, List, [], ◌∷◌, ◌++◌,
  Bool, true, false, arith, ltb, ◌==◌, if◌then◌else◌, Bool-cases, Option-cases, ◌^◌,
}
use watchmaker.Prelude.Sets.{has, has-append}
use watchmaker.Prelude.Outcome.{ok}
use watchmaker.Prelude.Finishes.{
  Finishes, on_ok, on_fail, Ends, bind, mono, ends, ending_then, outcome_then,
}
use watchmaker.Go.Text.{Bytes}
use watchmaker.Go.Strconv.{atoi}
use watchmaker.Prelude.Int.{pos, negsuc}
use watchmaker.Kernel.{Kernel}
use watchmaker.Ptrace.Program.{wait_for}
use watchmaker.Ptrace.Trace.{thread_id, put, Tracing, attach_thread, scan_threads, trace_loop}

-- The thread ids of a listing are between 1 and `n`.
abbrev pub Bounded : ℕ → List Bytes → Type 0
Bounded n [] = Unit
Bounded n (name ∷ names) = ((t : ℕ) → thread_id name ≡ ok t → (1 ≤ t) × (t ≤ n)) × Bounded n names

-- What `Trace` relies on: every call of the kernel ends, and no thread id reaches `pid_max`.
pub record Answers {W : Type 0} (k : Kernel W) : Type 0 where
  pub some_id : 1 ≤ k.pid_max
  pub seize : (tid : ℕ) (w : W) → Ends (k.seize tid w).0
  pub interrupt : (tid : ℕ) (w : W) → Ends (k.interrupt tid w).0
  pub wait4 : (tid : ℕ) (w : W) → Ends (k.wait4 tid w).0
  pub maps_file : (pid : ℕ) (w : W) → Ends (k.maps_file pid w).0
  pub task_names : (pid : ℕ) (w : W) → Ends (k.task_names pid w).0
  pub listing :
      (pid : ℕ) (w w' : W) (names : List Bytes)
      → k.task_names pid w ≡ (ok names, w')
      → Bounded (k.pid_max - 1) names

-- How many of the numbers from 1 to `n` are not seen.
unfoldable pub unseen : ℕ → List ℕ → ℕ
unseen zero seen = 0
unseen (suc n) seen = (if has (suc n) seen then 0 else 1) + unseen n seen

pub unseen-nil : (n : ℕ) → unseen n [] ≡ n
unfolding unseen has
unseen-nil zero = refl
unseen-nil (suc n) = omega (arith, unseen-nil n)

unseen-above : (n t : ℕ) (seen : List ℕ) → n < t → unseen n (t ∷ seen) ≡ unseen n seen
unfolding unseen has
unseen-above zero t seen h = refl
unseen-above (suc n) t seen h = ground (arith, unseen-above n t seen)

unseen-cons :
    (n t : ℕ) (seen : List ℕ)
    → 1 ≤ t
    → t ≤ n
    → has t seen ≡ false
    → unseen n (t ∷ seen) + 1 ≡ unseen n seen
unfolding unseen has
unseen-cons zero t seen p q h = omega arith
unseen-cons (suc n) t seen p q h = elim (Bool-cases (suc n == t)) [
  | inl e ↦ ground (arith, unseen-above n t seen, ap (λ x. has x seen) (same e))
  | inr e ↦ ground (arith, unseen-cons n t seen)
]
  where
    same : suc n == t ≡ true → suc n ≡ t
    same e = ground arith

thread_id-Ends : (name : Bytes) → Ends (thread_id name)
unfolding thread_id
thread_id-Ends name = elim (Option-cases (atoi name)) [
  | inl h ↦ rw (h, thread_id, Ends) tt
  | inr (pos n, h) ↦ elim (Bool-cases (ltb n (2 ^ 31))) [
    | inl g ↦ rw (h, g, thread_id, Ends) tt
    | inr g ↦ rw (h, g, thread_id, Ends) tt
  ]
  | inr (negsuc n, h) ↦ elim (Bool-cases (ltb n (2 ^ 31))) [
    | inl g ↦ rw (h, g, thread_id, Ends) tt
    | inr g ↦ rw (h, g, thread_id, Ends) tt
  ]
]

-- The threads seen are those attached.
abbrev pub IsSettled : {W : Type 0} → Tracing W → Type 0
IsSettled s = (x : ℕ) → has x s.attached ≡ has x s.seen

module _ {W : Type 0} {k : Kernel W} (answers : Answers k) where
  wait_for-Ends : (tid : ℕ) (w : W) → Ends (wait_for k tid w).0
  unfolding wait_for
  wait_for-Ends tid w = ends {Q = λ _ _. Unit {0}} (
      ending_then (k.wait4 tid w) (λ t. t) _ (answers.wait4 tid w)
        λ wpid t _. elim (Bool-cases (wpid == tid)) [
          | inl h ↦ rw h (on_ok tt)
          | inr h ↦ rw h on_fail
        ])

  record Attached (tid : ℕ) (s t : Tracing W) : Type 0 where
    seen : t.seen ≡ tid ∷ s.seen
    attached : t.attached ≡ s.attached ++ tid ∷ []

  attach_thread-Attached :
      (tid : ℕ) (s : Tracing W) → Finishes (λ _. Attached tid s) (attach_thread k tid s)
  unfolding attach_thread
  attach_thread-Attached tid s =
      ending_then (k.seize tid s.world) (λ w. record s { world = w }) _ (answers.seize tid s.world)
        λ _ w _.
          ending_then (k.interrupt tid w) (λ u. record s { world = u }) _ (answers.interrupt tid w)
            λ _ u _.
              ending_then (wait_for k tid u)
                (λ x. record s { world = x; attached = s.attached ++ tid ∷ [] }) _
                (wait_for-Ends tid u) λ _ x _. on_ok (record { seen = refl; attached = refl })

  IsSettled-Attached : (tid : ℕ) (s t : Tracing W) → Attached tid s t → IsSettled s → IsSettled t
  unfolding has
  IsSettled-Attached tid s t h settled x = ground (
    arith,
    ap (has x) h.seen,
    ap (has x) h.attached,
    has-append x s.attached (tid ∷ []),
    settled x,
  )

  -- What one pass over a listing has done, from the state `s`.
  record Scanned (n : ℕ) (subset : Bool) (s : Tracing W) (found : List ℕ × Bool) (t : Tracing W)
      : Type 0 where
    settled : IsSettled t
    fewer : unseen n t.seen ≤ unseen n s.seen
    progress : subset ≡ true → found.1 ≡ false → unseen n t.seen < unseen n s.seen
    traced : (x : ℕ) → has x found.0 ≡ true → has x t.seen ≡ true

  known_put :
      (tid : ℕ) (tids seen : List ℕ)
      → has tid seen ≡ true
      → ((x : ℕ) → has x tids ≡ true → has x seen ≡ true)
      → (x : ℕ) → has x (put tid tids) ≡ true
      → has x seen ≡ true
  unfolding has
  known_put tid tids seen h known x g = elim (Bool-cases (x == tid)) [
    | inl e ↦ let same : x ≡ tid = ground arith in subst (λ y. has y seen ≡ true) (sym same) h
    | inr e ↦ ground (arith, known x)
  ]

  known_new :
      (tid : ℕ) (tids : List ℕ) (s t : Tracing W)
      → Attached tid s t
      → ((x : ℕ) → has x tids ≡ true → has x s.seen ≡ true)
      → (x : ℕ) → has x (put tid tids) ≡ true
      → has x t.seen ≡ true
  unfolding has
  known_new tid tids s t h known x g = ground (arith, ap (has x) h.seen, known x)

  Scanned-Attached :
      (n : ℕ) (subset : Bool) (tid : ℕ) (s t u : Tracing W) (found : List ℕ × Bool)
      → Attached tid s t
      → Scanned n false t found u
      → (1 ≤ tid) × (tid ≤ n)
      → has tid s.seen ≡ false
      → Scanned n subset s found u
  Scanned-Attached n subset tid s t u found h g bound new =
      let less : unseen n t.seen + 1 ≡ unseen n s.seen =
        ap (λ l. unseen n l + 1) h.seen ∙ unseen-cons n tid s.seen bound.0 bound.1 new in
      record {
        settled = g.settled;
        fewer = omega (arith, g.fewer, less);
        progress = λ _ _. omega (arith, g.fewer, less);
        traced = g.traced;
      }

  scan_threads-Scanned :
      (n : ℕ) (names : List Bytes) (tids : List ℕ) (subset : Bool) (s : Tracing W)
      → Bounded n names
      → IsSettled s
      → ((x : ℕ) → has x tids ≡ true → has x s.seen ≡ true)
      → Finishes (Scanned n subset s) (scan_threads k names tids subset s)
  unfolding scan_threads
  scan_threads-Scanned n [] tids subset s bounded settled known = on_ok (record {
    settled = settled;
    fewer = omega arith;
    progress = λ h g. absurd (cc);
    traced = known;
  })
  scan_threads-Scanned n (name ∷ names) tids subset s bounded settled known =
      outcome_then (thread_id name) s _ (thread_id-Ends name) λ tid e.
        elim (Bool-cases (has tid s.seen)) [
          | inl seen ↦ rw seen (
              scan_threads-Scanned n names (put tid tids) subset s bounded.1 settled
                (known_put tid tids s.seen seen known))
          | inr new ↦ rw new (
              bind (attach_thread-Attached tid s) λ _ t h.
                mono
                  (scan_threads-Scanned n names (put tid tids) false t bounded.1
                    (IsSettled-Attached tid s t h settled) (known_new tid tids s t h known))
                  λ found u g. Scanned-Attached n subset tid s t u found h g (bounded.0 tid e) new)
        ]

  nothing : (x : ℕ) (seen : List ℕ) → has x [] ≡ true → has x seen ≡ true
  unfolding has
  nothing x seen h = absurd (cc)

  -- The ids that the loop returns are seen, and so attached.
  unfoldable pub Looped : List ℕ → Tracing W → Type 0
  Looped found t = IsSettled t × ((x : ℕ) → has x found ≡ true → has x t.seen ≡ true)

  pub trace_loop-Finishes :
      (fuel pid : ℕ) (s : Tracing W)
      → unseen (k.pid_max - 1) s.seen < fuel
      → IsSettled s
      → Finishes Looped (trace_loop k fuel pid s)
  unfolding trace_loop Looped
  trace_loop-Finishes zero pid s enough settled = absurd (omega arith)
  trace_loop-Finishes (suc fuel) pid s enough settled =
      ending_then (k.task_names pid s.world) (λ w. record s { world = w }) _
        (answers.task_names pid s.world)
        λ names w e.
          bind
            (scan_threads-Scanned (k.pid_max - 1) names [] true (record s { world = w })
              (answers.listing pid s.world w names e) settled (λ x h. nothing x s.seen h))
            λ found t g. elim (Bool-cases found.1) [
              | inl last ↦ rw last (on_ok (g.settled, g.traced))
              | inr more ↦
                  rw more
                    (trace_loop-Finishes fuel pid t (omega (arith, g.progress refl more)) g.settled)
            ]
