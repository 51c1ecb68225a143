-- ===== src/Workflow/Driver/Sequence.antt =====
-- packages/workflow-engine/src/executor.ts, `failRun`: the order in which steps are undone.
use ryvan_os.Base.Map.{values}
use ryvan_os.Workflow.Types.{StepState, WorkflowDefinition, WorkflowRun}
use ryvan_os.Workflow.Driver.{compensates, sequence_of, insert_state, to_compensate, sort_states}
use ryvan_os.Base.{
  ℕ, ◌≤◌, ◌≡◌, sym, subst, ◌↔◌, inl, inr, true, List, [], ◌∷◌, arith, leb, if_both, Bool-cases,
  keep_if, Member, here, there, All, Member-cons, Member-keep_if, keep_if-Member,
}

abbrev pub Descending : List StepState → Type 0
Descending [] = Unit
Descending (s ∷ ss) = All (λ t. sequence_of t ≤ sequence_of s) ss × Descending ss

insert-All :
    (P : StepState → Type 0) (s : StepState) (ts : List StepState)
    → P s
    → All P ts
    → All P (insert_state s ts)
unfolding insert_state
insert-All P s [] p h = (p, tt)
insert-All P s (t ∷ ts) p h =
    if_both (All P) (leb (sequence_of t) (sequence_of s)) (p, h) (h.0, insert-All P s ts p h.1)

All-le :
    (m n : ℕ) (ts : List StepState)
    → m ≤ n
    → All (λ t. sequence_of t ≤ m) ts
    → All (λ t. sequence_of t ≤ n) ts
All-le m n [] h k = tt
All-le m n (t ∷ ts) h k = (omega (arith, k.0), All-le m n ts h k.1)

insert-Descending :
    (s : StepState) (ts : List StepState) → Descending ts → Descending (insert_state s ts)
unfolding insert_state
insert-Descending s [] d = (tt, tt)
insert-Descending s (t ∷ ts) d = elim (Bool-cases (leb (sequence_of t) (sequence_of s))) [
  | inl e ↦
      let le : sequence_of t ≤ sequence_of s = ground arith in
      rw e (((le, All-le _ _ ts le d.0), d))
  | inr e ↦
      let le : sequence_of s ≤ sequence_of t = ground arith in
      rw e
        ((insert-All (λ u. sequence_of u ≤ sequence_of t) s ts le d.0, insert-Descending s ts d.1))
]

sort-Descending : (ts : List StepState) → Descending (sort_states ts)
unfolding sort_states
sort-Descending [] = tt
sort-Descending (t ∷ ts) = insert-Descending t (sort_states ts) (sort-Descending ts)

insert-into :
    (s a : StepState) (ts : List StepState) → Member a (s ∷ ts) → Member a (insert_state s ts)
unfolding insert_state
insert-into s a [] m = m
insert-into s a (t ∷ ts) m =
    if_both (Member a) (leb (sequence_of t) (sequence_of s)) m (elim (Member-cons m) [
      | inl q ↦ there (insert-into s a ts (subst (λ b. Member b (s ∷ ts)) (sym q) here))
      | inr n ↦ elim (Member-cons n) [
        | inl q ↦ subst (λ b. Member b (t ∷ insert_state s ts)) (sym q) here
        | inr k ↦ there (insert-into s a ts (there k))
      ]
    ])

insert-from :
    (s a : StepState) (ts : List StepState) → Member a (insert_state s ts) → Member a (s ∷ ts)
unfolding insert_state
insert-from s a [] m = m
insert-from s a (t ∷ ts) m = elim (Bool-cases (leb (sequence_of t) (sequence_of s))) [
  | inl e ↦ rw e at m
  | inr e ↦ elim (Member-cons (rw e at m)) [
    | inl q ↦ there (subst (λ b. Member b (t ∷ ts)) (sym q) here)
    | inr n ↦ elim (Member-cons (insert-from s a ts n)) [
      | inl q ↦ subst (λ b. Member b (s ∷ t ∷ ts)) (sym q) here
      | inr k ↦ there (there k)
    ]
  ]
]

sort-into : (a : StepState) (ts : List StepState) → Member a ts → Member a (sort_states ts)
unfolding sort_states
sort-into a [] m = m
sort-into a (t ∷ ts) m = elim (Member-cons m) [
  | inl q ↦
      insert-into t a (sort_states ts) (subst (λ b. Member b (t ∷ sort_states ts)) (sym q) here)
  | inr n ↦ insert-into t a (sort_states ts) (there (sort-into a ts n))
]

sort-from : (a : StepState) (ts : List StepState) → Member a (sort_states ts) → Member a ts
unfolding sort_states
sort-from a [] m = m
sort-from a (t ∷ ts) m = elim (Member-cons (insert-from t a (sort_states ts) m)) [
  | inl q ↦ subst (λ b. Member b (t ∷ ts)) (sym q) here
  | inr n ↦ there (sort-from a ts n)
]

-- The steps to compensate are exactly the completed steps of the run whose definition names a
-- compensation, and they come last completed first.
pub to_compensate_lem :
    (run : WorkflowRun) (definition : WorkflowDefinition)
    → Descending (to_compensate run definition)
      × ((s : StepState)
          → Member s (to_compensate run definition)
            ↔ (Member s (values run.steps) × (compensates definition s ≡ true)))
unfolding to_compensate
to_compensate_lem run definition = (
  sort-Descending (keep_if (compensates definition) (values run.steps)),
  λ s. (
    λ m.
        Member-keep_if (compensates definition) (values run.steps)
          (sort-from s (keep_if (compensates definition) (values run.steps)) m),
    λ h.
        sort-into s (keep_if (compensates definition) (values run.steps))
          (keep_if-Member (compensates definition) (values run.steps) h.0 h.1),
  ),
)
