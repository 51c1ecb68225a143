-- ===== src/Workflow/Transitions.antt =====
-- packages/workflow-engine/src/executor.ts, the state transitions of one run. A method that mutates
-- the run returns the new run; `now` is `Date.now()`.
pub mod Order
pub mod Skipping
use ryvan_os.Base.{
  ℕ, zero, suc, ◌+◌, max, String, Bool, true, false, not, ◌&&◌, Option, none, some, List, [], ◌∷◌,
  ◌++◌, ◌==◌, if◌then◌else◌, or_default, option_case, length, keep_if, any, all,
}
use ryvan_os.Base.Map.{get, set, values}
use ryvan_os.Workflow.Types.{
  WorkflowDefinition, Failure, Json, StepStatus, pending, waiting, completed, failed, skipped,
  StepDefinition, StepState, WorkflowRun,
}

abbrev pub is_pending : StepStatus → Bool
is_pending pending = true
is_pending _ = false

abbrev pub is_waiting : StepStatus → Bool
is_waiting waiting = true
is_waiting _ = false

abbrev pub is_completed : StepStatus → Bool
is_completed completed = true
is_completed _ = false

abbrev pub is_skipped : StepStatus → Bool
is_skipped skipped = true
is_skipped _ = false

abbrev pub is_failed : StepStatus → Bool
is_failed failed = true
is_failed _ = false

-- `run.steps[id]?.status`, tested.
abbrev pub state_is : (StepStatus → Bool) → Option StepState → Bool
state_is p none = false
state_is p (some s) = p s.status

-- The state of a step is one object: to change it is to change the run.
abbrev pub put_state : WorkflowRun → String → StepState → WorkflowRun
put_state run id state = record run { steps = set run.steps id state }

abbrev highest_sequence : List StepState → ℕ
highest_sequence [] = 0
highest_sequence (s ∷ ss) = max (or_default s.sequence 0) (highest_sequence ss)

unfoldable pub next_sequence : WorkflowRun → ℕ
next_sequence run = highest_sequence (values run.steps) + 1

unfoldable pub complete_step : WorkflowRun → String → StepState → Json → ℕ → WorkflowRun
complete_step run id state output now =
    let done = record state {
      status = completed;
      output = some output;
      completed_at = some now;
      sequence = some (next_sequence run);
      resume_at = none;
    } in
    record run { steps = set run.steps id done; outputs = set run.outputs id output }

unfoldable pub fail_step : WorkflowRun → String → StepState → String → ℕ → WorkflowRun
fail_step run id state error now = put_state run id (record state {
  status = failed;
  error = some error;
  completed_at = some now;
  resume_at = none;
})

abbrev pub skip_state : StepState → ℕ → StepState
skip_state state now = record state { status = skipped; completed_at = some now }

abbrev pub depends : StepDefinition → String → Bool
depends step id = any (λ d. d == id) step.depends_on

-- One step of the definition against the step `current`: the new run, if it is to be skipped.
skip_found : Option StepState → StepDefinition → ℕ → WorkflowRun → Option WorkflowRun
skip_found none step now run = none
skip_found (some state) step now run =
    if is_pending state.status then some (put_state run step.id (skip_state state now)) else none

unfoldable pub skip_one : StepDefinition → String → ℕ → WorkflowRun → Option WorkflowRun
unfolding skip_found
skip_one step current now run =
    if depends step current then skip_found (get run.steps step.id) step now run else none

-- One pass over the definition for the step `current`: the run, and the steps that it skipped.
unfoldable pub skip_pass :
    List StepDefinition → String → ℕ → WorkflowRun → WorkflowRun × List String
unfolding skip_one
skip_pass [] current now run = (run, [])
skip_pass (step ∷ steps) current now run =
    let next = skip_one step current now run in
    let (run', more) = skip_pass steps current now (or_default next run) in
    (run', option_case next more (λ _. step.id ∷ more))

-- The loop over the queue, on fuel: every id on the queue but the first was skipped by the loop.
unfoldable pub skip_queue :
    ℕ → List StepDefinition → List String → ℕ → WorkflowRun → Option (WorkflowRun × List String)
unfolding skip_pass
skip_queue zero steps queue now run = none
skip_queue (suc fuel) steps [] now run = some (run, [])
skip_queue (suc fuel) steps (current ∷ queue) now run =
    let (run', ids) = skip_pass steps current now run in
    option_case (skip_queue fuel steps (queue ++ ids) now run') none (λ r. some (r.0, ids ++ r.1))

-- The run, and the ids of the steps that were skipped.
unfoldable pub skip_dependents :
    WorkflowRun → WorkflowDefinition → String → ℕ → WorkflowRun × List String
unfolding skip_queue
skip_dependents run definition id now =
    or_default (skip_queue (length run.steps + 2) definition.steps (id ∷ []) now run) (run, [])

-- The first failed step that the run is not configured to tolerate.
pub fatal_in : List StepDefinition → WorkflowRun → Option Failure
fatal_in [] run = none
fatal_in (step ∷ steps) run = option_case (get run.steps step.id) (fatal_in steps run) (λ state.
    if is_failed state.status && not step.continue_on_error
    then some (record { step_id = step.id; error = or_default state.error "step failed" })
    else fatal_in steps run)

unfoldable pub fatal_failure : WorkflowRun → WorkflowDefinition → Option Failure
unfolding fatal_in
fatal_failure run definition = fatal_in definition.steps run

abbrev pub is_ready : WorkflowRun → StepDefinition → Bool
is_ready run step =
    state_is is_pending (get run.steps step.id)
    && all (λ d. state_is is_completed (get run.steps d)) step.depends_on

unfoldable pub ready_steps : WorkflowRun → WorkflowDefinition → List StepDefinition
ready_steps run definition = keep_if (is_ready run) definition.steps

unfoldable pub has_waiting : WorkflowRun → Bool
has_waiting run = any (λ s. is_waiting s.status) (values run.steps)
