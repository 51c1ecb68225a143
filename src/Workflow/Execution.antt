-- ===== src/Workflow/Execution.antt =====
-- packages/workflow-engine/src/executor.ts: executing ready steps.
pub mod Retries
pub mod Readiness
use Prim.Native.String.{◌++◌ as append}
use ryvan_os.Base.{
  ℕ, zero, suc, ◌+◌, ◌-◌, max, String, Bool, true, false, Option, none, some, leb, quoted,
  if◌then◌else◌, or_default, option_case, Outcome, returned, threw,
}
use ryvan_os.Base.Map.{get}
use ryvan_os.Workflow.Types.{
  Json, StepKind, StepStatus, RetryPolicy, StepDefinition, WorkflowDefinition, StepState,
  WorkflowRun, ApprovalGateStatus, Failure,
}
use ryvan_os.Workflow.Transitions.{put_state, complete_step, fail_step, skip_dependents}
use ryvan_os.Workflow.Environment.{
  workflow_message, Env, Live, step_started, step_completed, step_failed, step_skipped, emit_step,
}

abbrev pub with_run : Live → WorkflowRun → Live
with_run live run = record live { run = run }

-- A delay that is absent or zero sets no time.
abbrev pub later : ℕ → Option ℕ → Option ℕ → Option ℕ
later now none old = old
later now (some zero) old = old
later now (some (suc n)) old = some (now + suc n)

-- The `for` loop over attempts: `left` more after this one. The attempts made, and how they ended.
unfoldable pub retry_loop : ℕ → ℕ → (ℕ → Outcome Json) → ℕ × Outcome Json
retry_loop zero attempt call = (attempt, call attempt)
retry_loop (suc left) attempt call =
    let again = retry_loop left (attempt + 1) call in
    elim (call attempt) [ returned v ↦ (attempt, returned v) | threw e ↦ again ]

abbrev pub max_attempts : Option RetryPolicy → Option RetryPolicy → ℕ
max_attempts (some p) q = max 1 p.max_attempts
max_attempts none (some q) = max 1 q.max_attempts
max_attempts none none = 1

abbrev pub no_gate : WorkflowRun → StepDefinition → String
no_gate run step =
    workflow_message run.definition_id
      (append "step " (append (quoted step.id) " needs an approval gate but none is configured"))

abbrev pub no_handler : WorkflowRun → StepDefinition → String
no_handler run step =
    workflow_message run.definition_id (
      append "handler "
        (append (quoted (or_default step.handler "undefined")) " is not registered"))

module _ (env : Env) (definition : WorkflowDefinition) (step : StepDefinition) where
  -- The `catch` block of `executeStep`.
  unfoldable pub on_error : StepState → String → Live → Live × Option Failure
  on_error state message live =
      let failed =
        emit_step step_failed step.id
          (with_run live (fail_step live.run step.id state message env.now)) in
      if step.continue_on_error
      then (with_run failed (skip_dependents failed.run definition step.id env.now).0, none)
      else (failed, some (record { step_id = step.id; error = message }))

  -- The verdict of a fresh approval request.
  approval_begun : String → ApprovalGateStatus → StepState → Live → Live × Option Failure
  approval_begun id ApprovalGateStatus.granted state live = (
    emit_step step_completed step.id
        (with_run live (complete_step live.run step.id state "approved" env.now)),
    none,
  )
  approval_begun id ApprovalGateStatus.denied state live = (
    emit_step step_failed step.id
        (with_run live (fail_step live.run step.id state "approval denied" env.now)),
    if step.continue_on_error
        then none
        else some (record { step_id = step.id; error = "approval denied" }),
  )
  approval_begun id ApprovalGateStatus.expired state live = (
    emit_step step_failed step.id
        (with_run live (fail_step live.run step.id state "approval expired" env.now)),
    if step.continue_on_error
        then none
        else some (record { step_id = step.id; error = "approval expired" }),
  )
  approval_begun id ApprovalGateStatus.pending state live =
      let ttl = option_case step.approval none (λ a. a.ttl_ms) in
      (
        with_run live (
            put_state live.run step.id (record state {
              status = StepStatus.waiting;
              resume_at = later env.now ttl state.resume_at;
            })),
        none,
      )

  unfoldable pub begin_approval : StepState → Live → Live × Option Failure
  unfolding approval_begun on_error
  begin_approval state live =
      if env.gate
      then elim (env.request step) [
        | threw e ↦ on_error state e live
        | returned (id, status) ↦
            approval_begun id status (record state { approval_id = some id }) live
      ]
      else on_error state (no_gate live.run step) live

  begin_schedule : StepState → Live → Live × Option Failure
  begin_schedule state live =
      let delay = or_default (option_case step.schedule none (λ s. s.delay_ms)) 0 in
      let at = or_default (option_case step.schedule none (λ s. s.resume_at)) (env.now + delay) in
      if leb at env.now
      then (
        emit_step step_completed step.id
            (with_run live (complete_step live.run step.id state "resumed" env.now)),
        none,
      )
      else (
        with_run live (
            put_state live.run step.id
              (record state { status = StepStatus.waiting; resume_at = some at })),
        none,
      )

  begin_event : StepState → Live → Live × Option Failure
  begin_event state live =
      let timeout = option_case step.event none (λ e. e.timeout_ms) in
      (
        with_run live (
            put_state live.run step.id (record state {
              status = StepStatus.waiting;
              resume_at = later env.now timeout state.resume_at;
            })),
        none,
      )

  on_condition : StepState → Live → Bool → Live
  on_condition state live true =
      emit_step step_completed step.id
        (with_run live (complete_step live.run step.id state "true" env.now))
  on_condition state live false =
      let done = complete_step live.run step.id state "false" env.now in
      emit_step step_completed step.id (
        emit_step step_skipped step.id
          (with_run live (skip_dependents done definition step.id env.now).0))

  unfoldable pub run_condition : StepState → Live → Live × Option Failure
  unfolding on_condition on_error
  run_condition state live = elim (env.condition step.id) [
    | returned passed ↦ (on_condition state live passed, none)
    | threw e ↦ on_error state e live
  ]

  action_ended : StepState → Live → ℕ × Outcome Json → Live × Option Failure
  action_ended state live (attempts, returned v) = (
    emit_step step_completed step.id (
        with_run live
          (complete_step live.run step.id (record state { attempts = attempts }) v env.now)),
    none,
  )
  action_ended state live (attempts, threw e) =
      on_error (record state { attempts = attempts }) e live

  unfoldable pub run_action : StepState → Live → Live × Option Failure
  unfolding action_ended retry_loop on_error
  run_action state live = elim (option_case step.handler none env.handler) [
    | none ↦ on_error state (no_handler live.run step) live
    | some call ↦
        action_ended state live
          (retry_loop (max_attempts step.retry definition.retry - 1) 1 (call step.id))
  ]

  by_kind : StepKind → StepState → Live → Live × Option Failure
  by_kind StepKind.approval state live = begin_approval state live
  by_kind StepKind.schedule state live = begin_schedule state live
  by_kind StepKind.event state live = begin_event state live
  by_kind StepKind.conditional state live = run_condition state live
  by_kind StepKind.action state live = run_action state live
  by_kind StepKind.unknown state live = (live, none)

  -- `executeStep` up to its first `await`.
  unfoldable pub start_step : Live → Live
  start_step live = option_case (get live.run.steps step.id) live (λ state.
      emit_step step_started step.id (
        with_run live (
          put_state live.run step.id
            (record state { status = StepStatus.running; started_at = some env.now }))))

  -- The rest of `executeStep`.
  unfoldable pub finish_step : Live → Live × Option Failure
  unfolding by_kind begin_schedule begin_event
  finish_step live =
      option_case (get live.run.steps step.id) (live, none) (λ state. by_kind step.kind state live)
