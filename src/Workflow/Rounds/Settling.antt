-- ===== src/Workflow/Rounds/Settling.antt =====
-- packages/workflow-engine/src/executor.ts: the states that `settleWaitingSteps` changes.
use ryvan_os.Base.{
  String, ◌≡◌, inl, inr, true, some, List, [], ◌∷◌, arith, if_both, option_both, Bool-cases,
  Option-cases,
}
use ryvan_os.Base.Map.{get}
use ryvan_os.Workflow.Types.{
  StepKind, StepState, StepDefinition, WorkflowDefinition, ApprovalGateStatus,
}
use ryvan_os.Workflow.Transitions.{is_waiting}
use ryvan_os.Workflow.Transitions.Order.{Keeps, Keeps-refl, Keeps-trans, Changes, Changes-refl}
use ryvan_os.Workflow.Environment.{Env, Live}
use ryvan_os.Workflow.Execution.Readiness.{is_active, complete-Changes, fail-Changes, skip-Changes}
use ryvan_os.Workflow.Rounds.{
  fail_waiting, complete_waiting, on_verdict, settle_kind, settle_step, settle_in,
  settle_waiting_steps,
}

module _ (env : Env) (definition : WorkflowDefinition) (step : StepDefinition) (live : Live)
    (old : StepState) (found : get live.run.steps step.id ≡ some old)
    (active : is_active old.status ≡ true) where
  fail_waiting-Changes :
      (message : String) (state : StepState)
      → Changes step.id live.run.steps
          (fail_waiting env definition step message state live).run.steps
  unfolding fail_waiting
  fail_waiting-Changes message state =
      let failed = fail-Changes env definition step live old found active state message in
      if_both (λ (r : Live). Changes step.id live.run.steps r.run.steps) step.continue_on_error
        (skip-Changes env definition step live old found active _ failed) failed

  complete_waiting-Changes :
      (output : String) (state : StepState)
      → Changes step.id live.run.steps
          (complete_waiting env definition step output state live).run.steps
  unfolding complete_waiting
  complete_waiting-Changes output state =
      complete-Changes env definition step live old found active state output

  on_verdict-Changes :
      (v : ApprovalGateStatus) (state : StepState)
      → Changes step.id live.run.steps (on_verdict env definition step v state live).run.steps
  unfolding on_verdict
  on_verdict-Changes ApprovalGateStatus.granted state = complete_waiting-Changes _ state
  on_verdict-Changes ApprovalGateStatus.denied state = fail_waiting-Changes _ state
  on_verdict-Changes ApprovalGateStatus.expired state = fail_waiting-Changes _ state
  on_verdict-Changes ApprovalGateStatus.pending state = Changes-refl step.id live.run.steps

  settle_kind-Changes :
      (kind : StepKind) (state : StepState)
      → Changes step.id live.run.steps (settle_kind env definition step kind state live).run.steps
  unfolding settle_kind
  settle_kind-Changes StepKind.approval state =
      option_both (λ (r : Live). Changes step.id live.run.steps r.run.steps) state.approval_id
        (Changes-refl step.id live.run.steps)
        (λ id _.
          if_both (λ (r : Live). Changes step.id live.run.steps r.run.steps) _
            (on_verdict-Changes (env.check id) state) (Changes-refl step.id live.run.steps))
  settle_kind-Changes StepKind.schedule state =
      if_both (λ (r : Live). Changes step.id live.run.steps r.run.steps) _
        (complete_waiting-Changes _ state) (Changes-refl step.id live.run.steps)
  settle_kind-Changes StepKind.event state =
      if_both (λ (r : Live). Changes step.id live.run.steps r.run.steps) _
        (fail_waiting-Changes _ state) (Changes-refl step.id live.run.steps)
  settle_kind-Changes StepKind.action state = Changes-refl step.id live.run.steps
  settle_kind-Changes StepKind.conditional state = Changes-refl step.id live.run.steps
  settle_kind-Changes StepKind.unknown state = Changes-refl step.id live.run.steps

module _ (env : Env) (definition : WorkflowDefinition) where
  settle_step-Keeps :
      (step : StepDefinition) (live : Live)
      → Keeps live.run.steps (settle_step env definition step live).run.steps
  unfolding settle_step
  settle_step-Keeps step live = elim (Option-cases (get live.run.steps step.id)) [
    | inl gone ↦ rw (gone, settle_step) (Keeps-refl live.run.steps)
    | inr (old, found) ↦ elim (Bool-cases (is_waiting old.status)) [
      | inr other ↦ rw (found, other, settle_step) (Keeps-refl live.run.steps)
      | inl waits ↦
          rw (found, waits, settle_step)
            (settle_kind-Changes env definition step live old found (ground arith) step.kind
              old).keeps
    ]
  ]

  settle_in-Keeps :
      (steps : List StepDefinition) (live : Live)
      → Keeps live.run.steps (settle_in env definition steps live).run.steps
  unfolding settle_in
  settle_in-Keeps [] live = Keeps-refl live.run.steps
  settle_in-Keeps (step ∷ steps) live =
      Keeps-trans (settle_step-Keeps step live) (settle_in-Keeps steps _)

  pub settle_waiting_steps-Keeps :
      (live : Live) → Keeps live.run.steps (settle_waiting_steps env definition live).run.steps
  unfolding settle_waiting_steps
  settle_waiting_steps-Keeps live = settle_in-Keeps definition.steps live
