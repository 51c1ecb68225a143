-- ===== src/Workflow/Rounds.antt =====
-- packages/workflow-engine/src/executor.ts: `settleWaitingSteps` and `runBatch`.
pub mod Settling
pub mod SameRun
pub mod Dependencies
pub mod Slices
pub mod Batches
pub mod Ready
use Prim.Native.String.{◌++◌ as append}
use ryvan_os.Base.{
  ℕ, zero, suc, String, Bool, false, not, ◌&&◌, Option, none, some, List, [], ◌∷◌, leb, ◌==◌,
  is_empty, quoted, if◌then◌else◌, option_case, length, drop, take, find,
}
use ryvan_os.Base.Map.{get}
use ryvan_os.Workflow.Types.{
  StepKind, StepDefinition, WorkflowDefinition, StepState, ApprovalGateStatus, Failure,
}
use ryvan_os.Workflow.Transitions.{is_waiting, complete_step, fail_step, skip_dependents}
use ryvan_os.Workflow.Environment.{Env, Live, step_completed, step_failed, emit_step}
use ryvan_os.Workflow.Execution.{with_run, start_step, finish_step}

module _ (env : Env) (definition : WorkflowDefinition) (step : StepDefinition) where
  -- A waiting step that fails; unlike `beginApproval`, this skips the dependents of a step whose
  -- errors are tolerated.
  fail_waiting : String → StepState → Live → Live
  fail_waiting message state live =
      let failed =
        emit_step step_failed step.id
          (with_run live (fail_step live.run step.id state message env.now)) in
      if step.continue_on_error
      then with_run failed (skip_dependents failed.run definition step.id env.now).0
      else failed

  complete_waiting : String → StepState → Live → Live
  complete_waiting output state live =
      emit_step step_completed step.id
        (with_run live (complete_step live.run step.id state output env.now))

  on_verdict : ApprovalGateStatus → StepState → Live → Live
  on_verdict ApprovalGateStatus.granted state live = complete_waiting "approved" state live
  on_verdict ApprovalGateStatus.denied state live = fail_waiting "approval denied" state live
  on_verdict ApprovalGateStatus.expired state live = fail_waiting "approval expired" state live
  on_verdict ApprovalGateStatus.pending state live = live

  abbrev due : StepState → Bool
  due state = option_case state.resume_at false (λ at. leb at env.now)

  settle_kind : StepKind → StepState → Live → Live
  settle_kind StepKind.approval state live =
      option_case state.approval_id live
        (λ id. if not (is_empty id) && env.gate then on_verdict (env.check id) state live else live)
  settle_kind StepKind.schedule state live =
      if due state then complete_waiting "resumed" state live else live
  settle_kind StepKind.event state live =
      if due state
      then fail_waiting
          (append "timed out waiting for event "
            (quoted (option_case step.event "undefined" (λ e. e.type))))
          state live
      else live
  settle_kind StepKind.action state live = live
  settle_kind StepKind.conditional state live = live
  settle_kind StepKind.unknown state live = live

  unfoldable pub settle_step : Live → Live
  unfolding settle_kind on_verdict fail_waiting complete_waiting
  settle_step live =
      option_case (get live.run.steps step.id) live
        (λ state. if is_waiting state.status then settle_kind step.kind state live else live)

module _ (env : Env) (definition : WorkflowDefinition) where
  settle_in : List StepDefinition → Live → Live
  settle_in [] live = live
  settle_in (step ∷ steps) live = settle_in steps (settle_step env definition step live)

  unfoldable pub settle_waiting_steps : Live → Live
  unfolding settle_in
  settle_waiting_steps live = settle_in definition.steps live

  unfoldable pub start_all : List StepDefinition → Live → Live
  start_all [] live = live
  start_all (step ∷ steps) live = start_all steps (start_step env definition step live)

  -- The steps settle in the given order; the failures are kept by step.
  unfoldable pub finish_all : List StepDefinition → Live → Live × List Failure
  finish_all [] live = (live, [])
  finish_all (step ∷ steps) live =
      let (live', failure) = finish_step env definition step live in
      let (live'', failures) = finish_all steps live' in
      (live'', option_case failure failures (λ f. f ∷ failures))

  -- `outcomes` stand in the order of the slice: the first failure in that order is the fatal one.
  first_failure : List StepDefinition → List Failure → Option Failure
  first_failure [] failures = none
  first_failure (step ∷ steps) failures =
      option_case (find (λ f. f.step_id == step.id) failures) (first_failure steps failures)
        (λ f. some f)

  unfoldable pub run_slice : List StepDefinition → Live → Live × Option Failure
  unfolding start_all finish_all first_failure
  run_slice slice live =
      let (live', failures) = finish_all (env.order slice) (start_all slice live) in
      (live', first_failure slice failures)

  unfoldable pub run_slices : List (List StepDefinition) → Live → Live × Option Failure
  run_slices [] live = (live, none)
  run_slices (slice ∷ slices) live =
      let (live', fatal) = run_slice slice live in
      let rest = run_slices slices live' in option_case fatal rest (λ f. (live', some f))

-- `ready.slice(i, i + size)` for `i` in steps of `size`, which is positive.
unfoldable pub slices_from {ℓ} : {A : Type ℓ} → ℕ → ℕ → List A → List (List A)
slices_from zero size xs = []
slices_from (suc fuel) size [] = []
slices_from (suc fuel) size (x ∷ xs) =
    take size (x ∷ xs) ∷ slices_from fuel size (drop size (x ∷ xs))

abbrev pub slices {ℓ} : {A : Type ℓ} → ℕ → List A → List (List A)
slices size xs = slices_from (length xs) size xs

unfoldable pub run_batch :
    Env → WorkflowDefinition → ℕ → List StepDefinition → Live → Live × Option Failure
unfolding run_slices
run_batch env definition concurrency ready live =
    run_slices env definition (slices concurrency ready) live
