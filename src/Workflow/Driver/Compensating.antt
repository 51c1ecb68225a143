-- ===== src/Workflow/Driver/Compensating.antt =====
-- packages/workflow-engine/src/executor.ts, `failRun`: how a failed run is undone.
use ryvan_os.Workflow.Driver.Reversing.{contradicts, undone-Reversed, Reversed-undone, Reversed}
use ryvan_os.Workflow.Driver.Sequence.{to_compensate_lem}
use ryvan_os.Workflow.Environment.{Env}
use ryvan_os.Base.Map.{get-set_same, get-set, set, get}
use ryvan_os.Workflow.Types.{StepState, WorkflowDefinition, WorkflowRun}
use ryvan_os.Workflow.Driver.{
  Live, failure_message, RunStatus, Exec, Failure, fail_run, StepStatus, undone, to_compensate,
  compensate_all,
}
use ryvan_os.Base.{
  String, ◌≡◌, refl, sym, ap, ◌∙◌, ◌⊎◌, inl, inr, true, ◌||◌, some, List, [], ◌∷◌, eq_iff, ◌==◌,
  if◌then◌else◌, if_both, Bool-cases, any, Member, here, there, any-holds, any-of_Member,
}

compensate_all-any :
    (env : Env) (definition : WorkflowDefinition) (ss : List StepState) (run : WorkflowRun)
    → (compensate_all env definition ss run).1 ≡ any (undone env definition) ss
unfolding compensate_all
compensate_all-any env definition [] run = refl
compensate_all-any env definition (s ∷ ss) run =
    ap (λ b. undone env definition s || b) (compensate_all-any env definition ss _)

compensate_all-error :
    (env : Env) (definition : WorkflowDefinition) (ss : List StepState) (run : WorkflowRun)
    → (compensate_all env definition ss run).0.error ≡ run.error
unfolding compensate_all
compensate_all-error env definition [] run = refl
compensate_all-error env definition (s ∷ ss) run =
    compensate_all-error env definition ss _
    ∙ if_both (λ (r : WorkflowRun). r.error ≡ run.error) (undone env definition s) refl refl

module _ (env : Env) (definition : WorkflowDefinition) where
  compensate_all-id :
      (ss : List StepState) (run : WorkflowRun)
      → (compensate_all env definition ss run).0.id ≡ run.id
  unfolding compensate_all
  compensate_all-id [] run = refl
  compensate_all-id (s ∷ ss) run =
      compensate_all-id ss _
      ∙ if_both (λ (r : WorkflowRun). r.id ≡ run.id) (undone env definition s) refl refl

  -- What a step is once the steps of a list have been undone.
  abbrev Kept : List StepState → WorkflowRun → String → Type 0
  Kept ss run id =
      (get (compensate_all env definition ss run).0.steps id ≡ get run.steps id)
      ⊎ ((s : StepState) × Member s ss
          × (undone env definition s ≡ true)
          × (s.id ≡ id)
          × (get (compensate_all env definition ss run).0.steps id
              ≡ some (record s { status = StepStatus.compensated })))

  compensate_all-Kept : (ss : List StepState) (run : WorkflowRun) (id : String) → Kept ss run id
  unfolding compensate_all
  compensate_all-Kept [] run id = inl refl
  compensate_all-Kept (s ∷ ss) run id =
      let undo : WorkflowRun = record run {
        steps = set run.steps s.id (record s { status = StepStatus.compensated });
      } in
      elim (Bool-cases (undone env definition s)) [
        | inr stays ↦ elim (compensate_all-Kept ss run id) [
          | inl same ↦ inl (rw (stays) same)
          | inr (t, m, u, i, q) ↦ inr (t, there m, u, i, rw (stays) q)
        ]
        | inl goes ↦ elim (compensate_all-Kept ss undo id) [
          | inr (t, m, u, i, q) ↦ inr (t, there m, u, i, rw (goes) q)
          | inl same ↦ elim (Bool-cases (s.id == id)) [
            | inl e ↦ inr (
              s,
              here,
              goes,
              (eq_iff s.id id).0 e,
              rw (goes) (same ∙ get-set run.steps s.id id _ ∙ rw e refl),
            )
            | inr e ↦ inl (rw (goes) (same ∙ get-set run.steps s.id id _ ∙ rw e refl))
          ]
        ]
      ]

  compensate_all-undoes :
      (ss : List StepState) (run : WorkflowRun) (s : StepState)
      → Member s ss
      → undone env definition s ≡ true
      → (t : StepState) × (get (compensate_all env definition ss run).0.steps s.id ≡ some t)
        × (t.status ≡ StepStatus.compensated)
  unfolding compensate_all
  compensate_all-undoes [] run s m u = elim m [ ]
  compensate_all-undoes (_ ∷ ss) run s here u =
      let undo : WorkflowRun = record run {
        steps = set run.steps s.id (record s { status = StepStatus.compensated });
      } in
      elim (compensate_all-Kept ss undo s.id) [
        | inl same ↦ (
          record s { status = StepStatus.compensated },
          rw (u)
              (same ∙ get-set_same run.steps s.id (record s { status = StepStatus.compensated })),
          refl,
        )
        | inr (t, m, v, i, q) ↦ (record t { status = StepStatus.compensated }, rw (u) q, refl)
      ]
  compensate_all-undoes (r ∷ ss) run s (there m) u = compensate_all-undoes ss _ s m u

-- What becomes of a run that fails with a step.
pub record FailsRun (env : Env) (definition : WorkflowDefinition) (failure : Failure) (x y : Exec)
    : Type 0 where
  pub ends :
      ((y.live.run.status ≡ RunStatus.compensated)
        × (s : StepState) × Reversed env definition x.live.run s)
      ⊎ ((y.live.run.status ≡ RunStatus.failed)
          × ((s : StepState) → ¬ Reversed env definition x.live.run s))
  pub undoes :
      (s : StepState)
      → Reversed env definition x.live.run s
      → (t : StepState) × (get y.live.run.steps s.id ≡ some t) × (t.status ≡ StepStatus.compensated)
  pub keeps :
      (id : String)
      → (get y.live.run.steps id ≡ get x.live.run.steps id)
        ⊎ ((s : StepState) × Reversed env definition x.live.run s
            × (s.id ≡ id)
            × (get y.live.run.steps id ≡ some (record s { status = StepStatus.compensated })))
  pub message : y.live.run.error ≡ some (failure_message failure)
  pub same_run : y.live.run.id ≡ x.live.run.id
  pub is_stored : get y.store y.live.run.id ≡ some y.live.run

-- The run that `failRun` leaves.
abbrev undone_run : Env → WorkflowDefinition → Failure → WorkflowRun → WorkflowRun
undone_run env definition failure run =
    let (r, any_undone) =
      compensate_all env definition (to_compensate run definition)
        (record run { status = RunStatus.compensating; error = some (failure_message failure) }) in
    record r {
      status = if any_undone then RunStatus.compensated else RunStatus.failed;
      completed_at = some env.now;
    }

fail_run-run :
    (env : Env) (x : Exec) (definition : WorkflowDefinition) (failure : Failure)
    → let y = fail_run env x definition failure in
      (y.live.run ≡ undone_run env definition failure x.live.run)
      × (get y.store y.live.run.id ≡ some y.live.run)
unfolding fail_run
fail_run-run env x definition failure =
    let b =
      (compensate_all env definition (to_compensate x.live.run definition) (record x.live.run {
        status = RunStatus.compensating;
        error = some (failure_message failure);
      })).1 in
    (
      if_both (λ (l : Live). l.run ≡ undone_run env definition failure x.live.run) b refl refl,
      if_both (λ (l : Live). get (fail_run env x definition failure).store l.run.id ≡ some l.run) b
          (get-set_same _ _ _) (get-set_same _ _ _),
    )

-- A run that fails has undone just the steps that could be undone: each of them is left as
-- compensated, and every other step is as it was. The run ends as `compensated` when there is such
-- a step and as `failed` when there is none, its message names the step that failed, and the
-- stored run is the run in hand.
pub fail_run_lem :
    (env : Env) (x : Exec) (definition : WorkflowDefinition) (failure : Failure)
    → FailsRun env definition failure x (fail_run env x definition failure)
fail_run_lem env x definition failure =
    let run = x.live.run in
    let started : WorkflowRun = record run {
      status = RunStatus.compensating;
      error = some (failure_message failure);
    } in
    let c = to_compensate run definition in
    let done = compensate_all-any env definition c started in
    let listed : (s : StepState) → Reversed env definition run s → Member s c = λ s r.
      ((to_compensate_lem run definition).1 s).1
        (r.held, (Reversed-undone env definition run s r).0) in
    let (left, is_stored) = fail_run-run env x definition failure in
    record {
      ends = elim (Bool-cases (any (undone env definition) c)) [
        | inl e ↦
            let (s, m, u) = any-holds (undone env definition) c e in
            inl (rw (left, done ∙ e) refl, s, undone-Reversed env definition run s m u)
        | inr e ↦ inr (
          rw (left, done ∙ e) refl,
          λ s r. contradicts (
              sym e
              ∙ any-of_Member (undone env definition) (listed s r)
                  (Reversed-undone env definition run s r).1),
        )
      ];
      undoes = λ s r. rw left (
          compensate_all-undoes env definition c started s (listed s r)
            (Reversed-undone env definition run s r).1);
      keeps = λ id. elim (compensate_all-Kept env definition c started id) [
        | inl same ↦ inl (rw left same)
        | inr (s, m, u, i, q) ↦ inr (s, undone-Reversed env definition run s m u, i, rw left q)
      ];
      message = rw left (compensate_all-error env definition c started);
      same_run = rw left (compensate_all-id env definition c started);
      is_stored = is_stored;
    }
