-- ===== src/Workflow/Execution/Readiness.antt =====
-- packages/workflow-engine/src/executor.ts, `executeStep`: the states that it changes.
use ryvan_os.Base.{
  ℕ, ◌-◌, String, ◌≡◌, refl, Bool, true, false, not, ◌&&◌, Option, none, some, arith, option_case,
  if_both, Outcome, returned, threw,
}
use ryvan_os.Base.Map.{set, get}
use ryvan_os.Workflow.Types.{
  Json, StepStatus, StepState, StepDefinition, WorkflowDefinition, StepKind, Failure,
  ApprovalGateStatus, WorkflowRun,
}
use ryvan_os.Workflow.Transitions.Skipping.{skip_dependents-SkipsDependents}
use ryvan_os.Workflow.Transitions.{complete_step, fail_step, skip_dependents}
use ryvan_os.Workflow.Transitions.Order.{
  Changes-refl, Changes-then, Changes, set-Changes, is_started, is_done,
}
use ryvan_os.Workflow.Environment.{Env, Live}
use ryvan_os.Workflow.Execution.{
  no_handler, retry_loop, begin_event, max_attempts, begin_event, run_action, run_condition,
  action_ended, on_condition, by_kind, finish_step, approval_begun, begin_approval, begin_schedule,
  on_error,
}

-- A step that is underway: started, and neither completed nor compensated.
abbrev pub is_active : StepStatus → Bool
is_active s = is_started s && not (is_done s)

module _ (env : Env) (definition : WorkflowDefinition) (step : StepDefinition) (live : Live)
    (old : StepState) (found : get live.run.steps step.id ≡ some old)
    (active : is_active old.status ≡ true) where
  pub complete-Changes :
      (state : StepState) (output : Json)
      → Changes step.id live.run.steps (complete_step live.run step.id state output env.now).steps
  unfolding complete_step
  complete-Changes state output = set-Changes live.run.steps step.id old _ found (ground arith)

  pub fail-Changes :
      (state : StepState) (message : String)
      → Changes step.id live.run.steps (fail_step live.run step.id state message env.now).steps
  unfolding fail_step
  fail-Changes state message = set-Changes live.run.steps step.id old _ found (ground arith)

  wait-Changes :
      (new : StepState)
      → new.status ≡ StepStatus.waiting
      → Changes step.id live.run.steps (set live.run.steps step.id new)
  wait-Changes new e = set-Changes live.run.steps step.id old _ found (ground arith)

  pub skip-Changes :
      (run : WorkflowRun)
      → Changes step.id live.run.steps run.steps
      → Changes step.id live.run.steps (skip_dependents run definition step.id env.now).0.steps
  skip-Changes run c =
      let w = skip_dependents-SkipsDependents run definition step.id env.now in
      Changes-then step.id c w.keeps w.steady

  on_error-Changes :
      (state : StepState) (message : String)
      → Changes step.id live.run.steps (on_error env definition step state message live).0.run.steps
  unfolding on_error
  on_error-Changes state message =
      if_both (λ (r : Live × Option Failure). Changes step.id live.run.steps r.0.run.steps)
        step.continue_on_error (skip-Changes _ (fail-Changes state message))
        (fail-Changes state message)

  approval_begun-Changes :
      (id : String) (verdict : ApprovalGateStatus) (state : StepState)
      → Changes step.id live.run.steps
          (approval_begun env definition step id verdict state live).0.run.steps
  unfolding approval_begun
  approval_begun-Changes id ApprovalGateStatus.granted state = complete-Changes state "approved"
  approval_begun-Changes id ApprovalGateStatus.denied state = fail-Changes state "approval denied"
  approval_begun-Changes id ApprovalGateStatus.expired state = fail-Changes state "approval expired"
  approval_begun-Changes id ApprovalGateStatus.pending state = wait-Changes _ refl

  begin_approval-Changes :
      (state : StepState)
      → Changes step.id live.run.steps (begin_approval env definition step state live).0.run.steps
  unfolding begin_approval
  begin_approval-Changes state =
      if_both (λ (r : Live × Option Failure). Changes step.id live.run.steps r.0.run.steps) env.gate
        (answer (env.request step)) (on_error-Changes state _)
    where
      answer :
          (o : Outcome (String × ApprovalGateStatus))
          → Changes step.id live.run.steps
              (elim o as (λ _. Live × Option Failure) [
                | threw m ↦ on_error env definition step state m live
                | returned p ↦
                    approval_begun env definition step p.0 p.1
                      (record state { approval_id = some p.0 })
                      live
              ]).0.run.steps
      answer (threw m) = on_error-Changes state m
      answer (returned (id, v)) = approval_begun-Changes id v _

  begin_schedule-Changes :
      (state : StepState)
      → Changes step.id live.run.steps (begin_schedule env definition step state live).0.run.steps
  unfolding begin_schedule
  begin_schedule-Changes state =
      if_both (λ (r : Live × Option Failure). Changes step.id live.run.steps r.0.run.steps) _
        (complete-Changes state "resumed") (wait-Changes _ refl)

  on_condition-Changes :
      (state : StepState) (passed : Bool)
      → Changes step.id live.run.steps
          (on_condition env definition step state live passed).run.steps
  unfolding on_condition
  on_condition-Changes state true = complete-Changes state "true"
  on_condition-Changes state false = skip-Changes _ (complete-Changes state "false")

  action_ended-Changes :
      (state : StepState) (ending : ℕ × Outcome Json)
      → Changes step.id live.run.steps
          (action_ended env definition step state live ending).0.run.steps
  unfolding action_ended
  action_ended-Changes state (attempts, returned v) = complete-Changes _ v
  action_ended-Changes state (attempts, threw e) = on_error-Changes _ e

  run_condition-Changes :
      (state : StepState)
      → Changes step.id live.run.steps (run_condition env definition step state live).0.run.steps
  unfolding run_condition
  run_condition-Changes state = answer (env.condition step.id)
    where
      answer :
          (o : Outcome Bool)
          → Changes step.id live.run.steps
              (elim o as (λ _. Live × Option Failure) [
                | returned passed ↦ (on_condition env definition step state live passed, none)
                | threw e ↦ on_error env definition step state e live
              ]).0.run.steps
      answer (returned passed) = on_condition-Changes state passed
      answer (threw e) = on_error-Changes state e

  run_action-Changes :
      (state : StepState)
      → Changes step.id live.run.steps (run_action env definition step state live).0.run.steps
  unfolding run_action
  run_action-Changes state = answer (option_case step.handler none env.handler)
    where
      answer :
          (o : Option (String → ℕ → Outcome Json))
          → Changes step.id live.run.steps
              (elim o as (λ _. Live × Option Failure) [
                | none ↦ on_error env definition step state (no_handler live.run step) live
                | some call ↦
                    action_ended env definition step state live
                      (retry_loop (max_attempts step.retry definition.retry - 1) 1 (call step.id))
              ]).0.run.steps
      answer none = on_error-Changes state _
      answer (some call) = action_ended-Changes state _

  by_kind-Changes :
      (kind : StepKind) (state : StepState)
      → Changes step.id live.run.steps (by_kind env definition step kind state live).0.run.steps
  unfolding by_kind begin_event
  by_kind-Changes StepKind.approval state = begin_approval-Changes state
  by_kind-Changes StepKind.schedule state = begin_schedule-Changes state
  by_kind-Changes StepKind.event state = wait-Changes _ refl
  by_kind-Changes StepKind.conditional state = run_condition-Changes state
  by_kind-Changes StepKind.action state = run_action-Changes state
  by_kind-Changes StepKind.unknown state = Changes-refl step.id live.run.steps

  -- What runs after a step's start changes that step, skips pending ones, and does nothing else.
  pub finish_step-Changes :
      Changes step.id live.run.steps (finish_step env definition step live).0.run.steps
  unfolding finish_step
  finish_step-Changes = rw (found, finish_step) (by_kind-Changes step.kind old)
