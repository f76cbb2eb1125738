-- ===== src/Ptrace/Trace/Stopped.antt =====
-- The threads of a program that `Trace` returns: those of a listing, and all of them stopped.
use watchmaker.Prelude.{
  ℕ, zero, suc, ◌≡◌, refl, ap, ◌∙◌, subst, List, [], ◌∷◌, ◌++◌, Bool, true, false, ◌||◌, arith,
  ◌==◌, inl, inr, Bool-cases,
}
use watchmaker.Prelude.Sets.{has}
use watchmaker.Prelude.Outcome.{Outcome, ok, fail, panic, hung}
use watchmaker.Prelude.State.{Ran, M, and_then}
use watchmaker.Prelude.Yields.{Yields, on_ok, on_fail, on_panic, on_hung, bind, mono}
use watchmaker.Go.Text.{Bytes}
use watchmaker.Errors.{Error}
use watchmaker.Kernel.{Kernel}
use watchmaker.Ptrace.Program.{wait_for}
use watchmaker.Ptrace.Trace.{thread_id, put, Tracing, attach_thread, scan_threads, trace_loop}

-- How far a thread is: not traced, seized, asked to stop, or stopped.
pub data Phase : Type 0 where
  loose seized asked stopped : Phase

-- What `ptrace` says of seizing and interrupting, seen through the phase of every thread. A call
-- changes the thread that it names at most.
pub record Stops {W : Type 0} (k : Kernel W) (phase : W → ℕ → Phase) : Type 0 where
  pub seize : (tid : ℕ) (w t : W) → k.seize tid w ≡ (ok tt, t) → phase t tid ≡ seized
  pub seize_others :
      (tid x : ℕ) (w t : W)
      → k.seize tid w ≡ (ok tt, t)
      → (x == tid) ≡ false
      → phase t x ≡ phase w x
  pub interrupt :
      (tid : ℕ) (w t : W)
      → k.interrupt tid w ≡ (ok tt, t)
      → phase w tid ≡ seized
      → phase t tid ≡ asked
  pub interrupt_others :
      (tid x : ℕ) (w t : W)
      → k.interrupt tid w ≡ (ok tt, t)
      → (x == tid) ≡ false
      → phase t x ≡ phase w x
  pub wait4 :
      (tid : ℕ) (w t : W)
      → k.wait4 tid w ≡ (ok tid, t)
      → phase w tid ≡ asked
      → phase t tid ≡ stopped
  pub wait4_others :
      (tid x : ℕ) (w t : W)
      → k.wait4 tid w ≡ (ok tid, t)
      → (x == tid) ≡ false
      → phase t x ≡ phase w x
  pub task_names :
      (pid x : ℕ) (w t : W) (names : List Bytes)
      → k.task_names pid w ≡ (ok names, t)
      → phase t x ≡ phase w x
  pub maps_file : (pid x : ℕ) (w : W) → phase (k.maps_file pid w).1 x ≡ phase w x

-- A name of the listing is the thread `x`.
unfoldable pub lists : ℕ → List Bytes → Bool
lists x [] = false
lists x (name ∷ names) =
    elim (thread_id name) [ ok t ↦ x == t | fail e ↦ false | panic ↦ false | hung ↦ false ]
    || lists x names

-- A call of a part of the state, with the rest behind its success.
module _ {E S T A B : Type 0} {Q : B → S → Type 0} where
  pub success_then :
      (r : Ran E T A) (at : T → S) (next : A → M E S B)
      → ((a : A) (t : T) → r ≡ (ok a, t) → Yields Q (next a (at t)))
      → Yields Q (and_then (r.0, at r.1) next)
  success_then (ok a, t) at next h = h a t refl
  success_then (fail e, t) at next h = on_fail
  success_then (panic, t) at next h = on_panic
  success_then (hung, t) at next h = on_hung

-- A plain outcome, with the rest behind its success.
module _ {E S A B : Type 0} {Q : B → S → Type 0} where
  outcome_success :
      (o : Outcome E A) (s : S) (next : A → M E S B)
      → ((a : A) → o ≡ ok a → Yields Q (next a s))
      → Yields Q (and_then (o, s) next)
  outcome_success (ok a) s next h = h a refl
  outcome_success (fail e) s next h = on_fail
  outcome_success panic s next h = on_panic
  outcome_success hung s next h = on_hung

module _ {W : Type 0} {k : Kernel W} {phase : W → ℕ → Phase} (stops : Stops k phase) where
  -- All threads seen are stopped.
  abbrev pub AllStopped : Tracing W → Type 0
  AllStopped s = (x : ℕ) → has x s.seen ≡ true → phase s.world x ≡ stopped

  record Halts (tid : ℕ) (w t : W) : Type 0 where
    halted : phase t tid ≡ stopped
    others : (x : ℕ) → (x == tid) ≡ false → phase t x ≡ phase w x

  wait_for-Halts :
      (tid : ℕ) (w : W) → phase w tid ≡ asked → Yields (λ _. Halts tid w) (wait_for k tid w)
  unfolding wait_for
  wait_for-Halts tid w h =
      success_then (k.wait4 tid w) (λ t. t) _
        λ wpid t e. elim (Bool-cases (wpid == tid)) [
          | inr g ↦ rw g on_fail
          | inl g ↦
              let same : wpid ≡ tid = ground arith in
              let waited : k.wait4 tid w ≡ (ok tid, t) = e ∙ ap (λ n. (ok n, t)) same in
              rw g (
                on_ok (record {
                  halted = stops.wait4 tid w t waited h;
                  others = λ x d. stops.wait4_others tid x w t waited d;
                }))
        ]

  record Joined (tid : ℕ) (s t : Tracing W) : Type 0 where
    seen : t.seen ≡ tid ∷ s.seen
    halts : Halts tid s.world t.world

  attach_thread-Joined :
      (tid : ℕ) (s : Tracing W) → Yields (λ _. Joined tid s) (attach_thread k tid s)
  unfolding attach_thread
  attach_thread-Joined tid s =
      success_then (k.seize tid s.world) (λ w. record s { world = w }) _
        λ _ w e.
          success_then (k.interrupt tid w) (λ u. record s { world = u }) _
            λ _ u f.
              let asking = stops.interrupt tid w u f (stops.seize tid s.world w e) in
              joined u
                (λ x d.
                  stops.interrupt_others tid x w u f d ∙ stops.seize_others tid x s.world w e d)
                (wait_for k tid u) (wait_for-Halts tid u asking)
    where
      joined :
          (u : W)
          → ((x : ℕ) → (x == tid) ≡ false → phase u x ≡ phase s.world x)
          → (r : Ran Error W (Unit {0})) → Yields (λ _. Halts tid u) r
          → Yields
              (λ _. Joined tid s)
              (and_then
                (r.0, record { world = r.1; seen = s.seen; attached = s.attached ++ tid ∷ [] })
                (λ _ t. (ok tt, record t { seen = tid ∷ t.seen })))
      joined u before (ok tt, t) (on_ok h) = on_ok (record {
        seen = refl;
        halts = record { halted = h.halted; others = λ x d. h.others x d ∙ before x d };
      })
      joined u before (fail e, t) h = on_fail
      joined u before (panic, t) h = on_panic
      joined u before (hung, t) h = on_hung

  AllStopped-Joined : (tid : ℕ) (s t : Tracing W) → Joined tid s t → AllStopped s → AllStopped t
  unfolding has
  AllStopped-Joined tid s t j all x h = elim (Bool-cases (x == tid)) [
    | inl e ↦
        let same : tid ≡ x = ground arith in
        subst (λ y. phase t.world y ≡ stopped) same j.halts.halted
    | inr e ↦ j.halts.others x e ∙ all x (ground (arith, ap (has x) j.seen))
  ]

  -- Behind a pass over `names`: the ids found are those before and those of the names.
  record Passed (names : List Bytes) (tids found : List ℕ) (t : Tracing W) : Type 0 where
    stopped_all : AllStopped t
    known : (x : ℕ) → has x found ≡ true → has x t.seen ≡ true
    exact : (x : ℕ) → has x found ≡ (has x tids || lists x names)

  has-put : (x tid : ℕ) (tids : List ℕ) → has x (put tid tids) ≡ (x == tid || has x tids)
  unfolding has
  has-put x tid tids = elim (Bool-cases (has tid tids)) [
    | inr h ↦ rw h refl
    | inl h ↦ elim (Bool-cases (x == tid)) [
      | inr e ↦ rw (h, e) refl
      | inl e ↦
          let same : tid ≡ x = ground arith in rw (h, e) (subst (λ y. has y tids ≡ true) same h)
    ]
  ]

  listed_name :
      (x tid : ℕ) (name : Bytes) (names : List Bytes)
      → thread_id name ≡ ok tid
      → lists x (name ∷ names) ≡ (x == tid || lists x names)
  unfolding lists
  listed_name x tid name names e = rw (e, lists) refl

  -- One name more.
  Passed-cons :
      (tid : ℕ) (name : Bytes) (names : List Bytes) (tids found : List ℕ) (t : Tracing W)
      → thread_id name ≡ ok tid
      → Passed names (put tid tids) found t
      → Passed (name ∷ names) tids found t
  Passed-cons tid name names tids found t e h = record {
    stopped_all = h.stopped_all;
    known = h.known;
    exact = λ x. ground (arith, h.exact x, has-put x tid tids, listed_name x tid name names e);
  }

  seen_put :
      (tid : ℕ) (tids seen : List ℕ)
      → has tid seen ≡ true
      → ((x : ℕ) → has x tids ≡ true → has x seen ≡ true)
      → (x : ℕ) → has x (put tid tids) ≡ true
      → has x seen ≡ true
  seen_put tid tids seen h known x g = elim (Bool-cases (x == tid)) [
    | inl e ↦ let same : tid ≡ x = ground arith in subst (λ y. has y seen ≡ true) same h
    | inr e ↦ known x (ground (arith, has-put x tid tids))
  ]

  seen_new :
      (tid : ℕ) (tids : List ℕ) (s t : Tracing W)
      → Joined tid s t
      → ((x : ℕ) → has x tids ≡ true → has x s.seen ≡ true)
      → (x : ℕ) → has x (put tid tids) ≡ true
      → has x t.seen ≡ true
  unfolding has
  seen_new tid tids s t j known x g = ground (arith, ap (has x) j.seen, known x, has-put x tid tids)

  scan_threads-Passed :
      (names : List Bytes) (tids : List ℕ) (subset : Bool) (s : Tracing W)
      → AllStopped s
      → ((x : ℕ) → has x tids ≡ true → has x s.seen ≡ true)
      → Yields (λ found t. Passed names tids found.0 t) (scan_threads k names tids subset s)
  unfolding scan_threads lists
  scan_threads-Passed [] tids subset s all known =
      on_ok (record { stopped_all = all; known = known; exact = λ x. ground arith })
  scan_threads-Passed (name ∷ names) tids subset s all known =
      outcome_success (thread_id name) s _ λ tid e. elim (Bool-cases (has tid s.seen)) [
        | inl h ↦ rw h (
            mono
              (scan_threads-Passed names (put tid tids) subset s all
                (seen_put tid tids s.seen h known))
              λ found u p. Passed-cons tid name names tids found.0 u e p)
        | inr h ↦ rw h (
            bind (attach_thread-Joined tid s) λ _ t j.
              mono
                (scan_threads-Passed names (put tid tids) false t (AllStopped-Joined tid s t j all)
                  (seen_new tid tids s t j known))
                λ found u p. Passed-cons tid name names tids found.0 u e p)
      ]

  -- The ids are those of one listing, the threads that have them are stopped.
  pub record Listed (pid : ℕ) (found : List ℕ) (t : Tracing W) : Type 0 where
    pub names : List Bytes
    pub shown : (w : W) × (u : W) × (k.task_names pid w ≡ (ok names, u))
    pub exact : (x : ℕ) → has x found ≡ lists x names
    pub halted : (x : ℕ) → has x found ≡ true → phase t.world x ≡ stopped

  none_yet : (x : ℕ) (seen : List ℕ) → has x [] ≡ true → has x seen ≡ true
  unfolding has
  none_yet x seen h = absurd (cc)

  from_nothing :
      (x : ℕ) (names : List Bytes) (found : Bool)
      → found ≡ (has x [] || lists x names)
      → found ≡ lists x names
  unfolding has
  from_nothing x names found h = h

  pub trace_loop-Listed :
      (fuel pid : ℕ) (s : Tracing W) → AllStopped s → Yields (Listed pid) (trace_loop k fuel pid s)
  unfolding trace_loop
  trace_loop-Listed zero pid s all = on_hung
  trace_loop-Listed (suc fuel) pid s all =
      success_then (k.task_names pid s.world) (λ w. record s { world = w }) _
        λ names w e.
          bind
            (scan_threads-Passed names [] true (record s { world = w })
              (λ x h. stops.task_names pid x s.world w names e ∙ all x h)
              (λ x h. none_yet x s.seen h))
            λ found t p. elim (Bool-cases found.1) [
              | inl last ↦ rw last (
                  on_ok (record {
                    names = names;
                    shown = (s.world, w, e);
                    exact = λ x. from_nothing x names (has x found.0) (p.exact x);
                    halted = λ x h. p.stopped_all x (p.known x h);
                  }))
              | inr more ↦ rw more (trace_loop-Listed fuel pid t p.stopped_all)
            ]
