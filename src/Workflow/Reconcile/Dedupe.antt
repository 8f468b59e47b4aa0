-- ===== src/Workflow/Reconcile/Dedupe.antt =====
-- workflow/reconcile.py: what `_dedupe_candidates` keeps.
use agentic_cartoon_demo.Base.{
  ℕ, ◌≤◌, ◌≡◌, refl, sym, ◌∙◌, ap, inl, inr, Bool, true, false, Bool-cases, List, [], ◌∷◌, ◌=str=◌,
  str_iff, str_refl, ltb, All, All-map, Any, arith,
}
use agentic_cartoon_demo.Workflow.Reconcile.{
  ReconciliationCandidate, pattern_priority, place, dedupe_from, dedupe_candidates,
}

abbrev pub same_workflow : ReconciliationCandidate → ReconciliationCandidate → Bool
same_workflow c d = c.workflow.workflow_id =str= d.workflow.workflow_id

abbrev pub priority : ReconciliationCandidate → ℕ
priority c = pattern_priority c.pattern_id

-- `d` is of the workflow of `c`, and its pattern goes before that of `c` or is the same.
abbrev pub Covers : ReconciliationCandidate → ReconciliationCandidate → Type 0
Covers c d = (same_workflow d c ≡ true) × (priority d ≤ priority c)

-- No two candidates are of one workflow.
abbrev pub IsDistinct : List ReconciliationCandidate → Type 0
IsDistinct [] = Unit
IsDistinct (c ∷ cs) = All (λ d. same_workflow d c ≡ false) cs × IsDistinct cs

place-All :
    (P : ReconciliationCandidate → Type 0) (c : ReconciliationCandidate)
    (xs : List ReconciliationCandidate)
    → P c
    → All P xs
    → All P (place c xs)
unfolding place
place-All P c [] h k = (h, tt)
place-All P c (x ∷ xs) h k = elim (Bool-cases (same_workflow x c)) [
  | inl e ↦ elim (Bool-cases (ltb (priority c) (priority x))) [
    | inl f ↦ rw e (rw f (h, k.1))
    | inr f ↦ rw e (rw f k)
  ]
  | inr e ↦ rw e (k.0, place-All P c xs h k.1)
]

-- The candidate that is placed is covered.
place-new :
    (c : ReconciliationCandidate) (xs : List ReconciliationCandidate) → Any (Covers c) (place c xs)
unfolding place
place-new c [] = inl (str_refl c.workflow.workflow_id, omega arith)
place-new c (x ∷ xs) = elim (Bool-cases (same_workflow x c)) [
  | inl e ↦ elim (Bool-cases (ltb (priority c) (priority x))) [
    | inl f ↦ rw e (rw f (inl (str_refl c.workflow.workflow_id, omega arith)))
    | inr f ↦ rw e (rw f (inl (e, ground (arith, f))))
  ]
  | inr e ↦ rw e (inr (place-new c xs))
]

Covers-replaced :
    (c d x : ReconciliationCandidate)
    → same_workflow x c ≡ true
    → ltb (priority c) (priority x) ≡ true
    → Covers d x
    → Covers d c
Covers-replaced c d x e f h = (
  ground (
    arith,
    e,
    h.0,
    str_iff x.workflow.workflow_id c.workflow.workflow_id,
    str_iff x.workflow.workflow_id d.workflow.workflow_id,
    str_iff c.workflow.workflow_id d.workflow.workflow_id,
  ),
  ground (arith, f, h.1),
)

-- What was covered stays so.
place-Covers :
    (d c : ReconciliationCandidate) (xs : List ReconciliationCandidate)
    → Any (Covers d) xs
    → Any (Covers d) (place c xs)
unfolding place
place-Covers d c [] h = absurd h
place-Covers d c (x ∷ xs) (inl h) = elim (Bool-cases (same_workflow x c)) [
  | inl e ↦ elim (Bool-cases (ltb (priority c) (priority x))) [
    | inl f ↦ rw e (rw f (inl (Covers-replaced c d x e f h)))
    | inr f ↦ rw e (rw f (inl h))
  ]
  | inr e ↦ rw e (inl h)
]
place-Covers d c (x ∷ xs) (inr h) = elim (Bool-cases (same_workflow x c)) [
  | inl e ↦ elim (Bool-cases (ltb (priority c) (priority x))) [
    | inl f ↦ rw e (rw f (inr h))
    | inr f ↦ rw e (rw f (inr h))
  ]
  | inr e ↦ rw e (inr (place-Covers d c xs h))
]

Distinct-replaced :
    (c x : ReconciliationCandidate)
    → same_workflow x c ≡ true
    → (d : ReconciliationCandidate) → same_workflow d x ≡ false
    → same_workflow d c ≡ false
Distinct-replaced c x e d h =
    ap (λ i. d.workflow.workflow_id =str= i)
      (sym ((str_iff x.workflow.workflow_id c.workflow.workflow_id).0 e))
    ∙ h

place-IsDistinct :
    (c : ReconciliationCandidate) (xs : List ReconciliationCandidate)
    → IsDistinct xs
    → IsDistinct (place c xs)
unfolding place
place-IsDistinct c [] h = (tt, tt)
place-IsDistinct c (x ∷ xs) h = elim (Bool-cases (same_workflow x c)) [
  | inl e ↦ elim (Bool-cases (ltb (priority c) (priority x))) [
    | inl f ↦ rw e (
        rw f (
          All-map (λ d. same_workflow d x ≡ false) (λ d. same_workflow d c ≡ false) xs
              (Distinct-replaced c x e) h.0,
          h.1,
        ))
    | inr f ↦ rw e (rw f h)
  ]
  | inr e ↦
      rw e
        (place-All (λ d. same_workflow d x ≡ false) c xs (other e) h.0, place-IsDistinct c xs h.1)
]
  where
    other : same_workflow x c ≡ false → same_workflow c x ≡ false
    other e = ground (
      arith,
      e,
      str_iff x.workflow.workflow_id c.workflow.workflow_id,
      str_iff c.workflow.workflow_id x.workflow.workflow_id,
    )

dedupe_from-IsDistinct :
    (acc cs : List ReconciliationCandidate) → IsDistinct acc → IsDistinct (dedupe_from acc cs)
unfolding dedupe_from
dedupe_from-IsDistinct acc [] h = h
dedupe_from-IsDistinct acc (c ∷ cs) h =
    dedupe_from-IsDistinct (place c acc) cs (place-IsDistinct c acc h)

dedupe_from-Covers :
    (d : ReconciliationCandidate) (acc cs : List ReconciliationCandidate)
    → Any (Covers d) acc
    → Any (Covers d) (dedupe_from acc cs)
unfolding dedupe_from
dedupe_from-Covers d acc [] h = h
dedupe_from-Covers d acc (c ∷ cs) h = dedupe_from-Covers d (place c acc) cs (place-Covers d c acc h)

dedupe_from-covered :
    (acc cs : List ReconciliationCandidate) → All (λ d. Any (Covers d) (dedupe_from acc cs)) cs
unfolding dedupe_from
dedupe_from-covered acc [] = tt
dedupe_from-covered acc (c ∷ cs) =
    (dedupe_from-Covers c (place c acc) cs (place-new c acc), dedupe_from-covered (place c acc) cs)

pub dedupe_from-All :
    (P : ReconciliationCandidate → Type 0) (acc cs : List ReconciliationCandidate)
    → All P acc
    → All P cs
    → All P (dedupe_from acc cs)
unfolding dedupe_from
dedupe_from-All P acc [] h k = h
dedupe_from-All P acc (c ∷ cs) h k =
    dedupe_from-All P (place c acc) cs (place-All P c acc k.0 h) k.1

All-self : (cs : List ReconciliationCandidate) → All (λ d. Any (λ c. d ≡ c) cs) cs
All-self [] = tt
All-self (c ∷ cs) = (
  inl refl,
  All-map (λ d. Any (λ x. d ≡ x) cs) (λ d. Any (λ x. d ≡ x) (c ∷ cs)) cs (λ d h. inr h)
      (All-self cs),
)

-- What is kept of the candidates `cs`.
pub record IsBest (cs kept : List ReconciliationCandidate) : Type 0 where
  pub distinct : IsDistinct kept
  pub sound : All (λ d. Any (λ c. d ≡ c) cs) kept
  pub best : All (λ c. Any (Covers c) kept) cs

-- Of each workflow's candidates exactly one is kept: no two that are kept are of one workflow, each
-- is one of the candidates, and for every candidate one of the same workflow is kept whose pattern
-- has the same or a better priority.
pub dedupe_candidates-IsBest :
    (cs : List ReconciliationCandidate) → IsBest cs (dedupe_candidates cs)
unfolding dedupe_candidates
dedupe_candidates-IsBest cs = record {
  distinct = dedupe_from-IsDistinct [] cs tt;
  sound = dedupe_from-All (λ d. Any (λ c. d ≡ c) cs) [] cs tt (All-self cs);
  best = dedupe_from-covered [] cs;
}
