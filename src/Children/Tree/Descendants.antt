-- ===== src/Children/Tree/Descendants.antt =====
-- `collectAllChildren` collects the descendants of a process, and ends where no process is its
-- own ancestor.
use watchmaker.Prelude.{
  ℕ, zero, suc, ◌<◌, ◌≡◌, ◌↔◌, ◌⊎◌, inl, inr, refl, sym, ap, ◌∙◌, subst, append-nil, append_assoc,
  List, [], ◌∷◌, ◌++◌, Bool, true, arith,
}
use watchmaker.Prelude.Sets.{
  has, has_here, has_there, has_cons_cases, has_append_cases, has_left, has_right,
}
use watchmaker.Prelude.Outcome.{Outcome, ok}
use watchmaker.Errors.{Error}
use watchmaker.Children.Tree.{PidMap, children_of, gather, collect_all_children}

-- `x` is a child of `p`, or of a descendant of `p`.
pub data Descends (is_child : ℕ → ℕ → Bool) : ℕ → ℕ → Type 0 where
  child : {p c : ℕ} → is_child p c ≡ true → Descends is_child p c
  deeper : {p c x : ℕ} → is_child p c ≡ true → Descends is_child c x → Descends is_child p x

-- The relation of the map.
abbrev pub table : PidMap → ℕ → ℕ → Bool
table m p c = has c (children_of p m)

-- Every child has a smaller rank than its parent.
pub record IsRanked (is_child : ℕ → ℕ → Bool) (rank : ℕ → ℕ) : Type 0 where
  pub falls : (p c : ℕ) → is_child p c ≡ true → rank c < rank p

-- The list holds exactly the descendants through the children `cs`.
record Gathers (m : PidMap) (cs found : List ℕ) : Type 0 where
  sound :
      (x : ℕ)
      → has x found ≡ true
      → (c : ℕ) × (has c cs ≡ true) × ((x ≡ c) ⊎ Descends (table m) c x)
  complete : (x c : ℕ) → has c cs ≡ true → (x ≡ c) ⊎ Descends (table m) c x → has x found ≡ true

-- What the call for one process returns.
record Collects (m : PidMap) (below : ℕ → Outcome Error (List ℕ)) (p : ℕ) : Type 0 where
  found : List ℕ
  returns : below p ≡ ok found
  exact : (x : ℕ) → (has x found ≡ true) ↔ Descends (table m) p x

module _ (m : PidMap) where
  sound_nil :
      (x : ℕ) → has x [] ≡ true → (c : ℕ) × (has c [] ≡ true) × ((x ≡ c) ⊎ Descends (table m) c x)
  unfolding has
  sound_nil x h = absurd (cc)

  complete_nil : (x c : ℕ) → has c [] ≡ true → has x [] ≡ true
  unfolding has
  complete_nil x c h = absurd (cc)

  Gathers-nil : Gathers m [] []
  Gathers-nil = record { sound = sound_nil; complete = λ x c h d. complete_nil x c h }

  module _ (c : ℕ) (cs one rest : List ℕ)
      (exact : (x : ℕ) → (has x one ≡ true) ↔ Descends (table m) c x) (g : Gathers m cs rest) where
    sound_cons :
        (x : ℕ)
        → has x (c ∷ (one ++ rest)) ≡ true
        → (d : ℕ) × (has d (c ∷ cs) ≡ true) × ((x ≡ d) ⊎ Descends (table m) d x)
    sound_cons x h = elim (has_cons_cases x c (one ++ rest) h) [
      | inl e ↦ (c, has_here c cs, inl e)
      | inr t ↦ elim (has_append_cases x one rest t) [
        | inl u ↦ (c, has_here c cs, inr ((exact x).0 u))
        | inr u ↦ let (d, member, from) = g.sound x u in (d, has_there d c cs member, from)
      ]
    ]

    complete_cons :
        (x d : ℕ)
        → has d (c ∷ cs) ≡ true
        → (x ≡ d) ⊎ Descends (table m) d x
        → has x (c ∷ (one ++ rest)) ≡ true
    complete_cons x d h from = elim (has_cons_cases d c cs h) [
      | inl e ↦ elim from [
        | inl same ↦
            subst (λ y. has x (y ∷ (one ++ rest)) ≡ true) (same ∙ e) (has_here x (one ++ rest))
        | inr below ↦
            has_there x c (one ++ rest)
              (has_left x one rest ((exact x).1 (subst (λ y. Descends (table m) y x) e below)))
      ]
      | inr t ↦ has_there x c (one ++ rest) (has_right x one rest (g.complete x d t from))
    ]

    Gathers-cons : Gathers m (c ∷ cs) (c ∷ (one ++ rest))
    Gathers-cons = record { sound = sound_cons; complete = complete_cons }

module _ (m : PidMap) (below : ℕ → Outcome Error (List ℕ)) where
  Gathered : List ℕ → List ℕ → Type 0
  Gathered cs result =
      (found : List ℕ) × (gather below result cs ≡ ok (result ++ found)) × Gathers m cs found

  gather-cons :
      (result cs one : List ℕ) (c : ℕ)
      → below c ≡ ok one
      → gather below result (c ∷ cs) ≡ gather below ((result ++ c ∷ []) ++ one) cs
  unfolding gather
  gather-cons result cs one c e = rw (e, gather) refl

  gather-Gathers :
      (cs result : List ℕ) → ((c : ℕ) → has c cs ≡ true → Collects m below c) → Gathered cs result
  unfolding gather Gathered
  gather-Gathers [] result each = ([], ap ok (sym (append-nil result)), Gathers-nil m)
  gather-Gathers (c ∷ cs) result each =
      let here = each c (has_here c cs) in
      let (rest, returns, gathers) =
        gather-Gathers cs ((result ++ c ∷ []) ++ here.found) (λ d h. each d (has_there d c cs h)) in
      let shape : ((result ++ c ∷ []) ++ here.found) ++ rest ≡ result ++ c ∷ (here.found ++ rest) =
        simp (append_assoc) in
      (
        c ∷ (here.found ++ rest),
        gather-cons result cs here.found c here.returns ∙ returns ∙ ap ok shape,
        Gathers-cons m c cs here.found rest here.exact gathers,
      )

module _ (m : PidMap) (rank : ℕ → ℕ) (ranked : IsRanked (table m) rank) where
  descends :
      (p x : ℕ)
      → ((c : ℕ) × (table m p c ≡ true) × ((x ≡ c) ⊎ Descends (table m) c x))
      → Descends (table m) p x
  descends p x (c, is_child, inl e) = subst (Descends (table m) p) (sym e) (child is_child)
  descends p x (c, is_child, inr d) = deeper is_child d

  first_step :
      (p x : ℕ)
      → Descends (table m) p x
      → (c : ℕ) × (table m p c ≡ true) × ((x ≡ c) ⊎ Descends (table m) c x)
  first_step p x (child is_child) = (x, is_child, inl refl)
  first_step p x (deeper {c} is_child d) = (c, is_child, inr d)

  collect-Collects : (fuel p : ℕ) → rank p < fuel → Collects m (collect_all_children fuel m) p
  unfolding collect_all_children Gathered
  collect-Collects zero p h = absurd (omega arith)
  collect-Collects (suc fuel) p h =
      let (found, returns, g) =
        gather-Gathers m (collect_all_children fuel m) (children_of p m) []
          (λ c is_child. collect-Collects fuel c (ground (arith, ranked.falls p c is_child))) in
      record {
        found = found;
        returns = returns;
        exact = λ x. (
          λ h. descends p x (g.sound x h),
          λ d. let (c, is_child, from) = first_step p x d in g.complete x c is_child from,
        );
      }

  -- Where a rank falls from every process to its children, `collect_all_children` with fuel above
  -- the rank of `p` returns a list, and the list holds exactly the descendants of `p`.
  pub collect_all_children-Descends :
      (fuel p : ℕ)
      → rank p < fuel
      → (found : List ℕ) × (collect_all_children fuel m p ≡ ok found)
        × ((x : ℕ) → (has x found ≡ true) ↔ Descends (table m) p x)
  collect_all_children-Descends fuel p h =
      let c = collect-Collects fuel p h in (c.found, c.returns, c.exact)
