-- ===== src/Workflow/Executor.antt =====
-- packages/workflow-engine/src/executor.ts: the entry points, which load a run and drive it.
pub mod Ending
pub mod Tests
pub mod Cancelling
use ryvan_os.Base.{
  ℕ, String, Bool, true, false, ◌&&◌, Option, none, some, List, [], ◌∷◌, ◌++◌, ltb, leb, ◌==◌,
  if◌then◌else◌, or_default, option_case, length, keep_if, any, workflow_error, Result, throws,
  returns, ◌>>=◌, ◌>>◌, throw_if,
}
use ryvan_os.Base.Map.{Map, get, set, values}
use ryvan_os.Workflow.Types.{
  Json, RunStatus, StepKind, StepStatus, StepDefinition, WorkflowDefinition, StepState, WorkflowRun,
}
use ryvan_os.Workflow.Registry.{WorkflowRegistry, find_definition, missing_handlers}
use ryvan_os.Workflow.Store.{list_runs, suspended_runs}
use ryvan_os.Workflow.Transitions.{is_waiting, complete_step}
use ryvan_os.Workflow.Environment.{
  Live, Emitted, of_run, emit_step, step_completed, workflow_started, workflow_resumed,
  workflow_cancelled,
}
use ryvan_os.Workflow.Execution.{with_run}
use ryvan_os.Workflow.Driver.{Exec, Round, drive_loop, is_terminal, cancelled_run}

-- The registry, the run store, and what was put on the event bus.
pub record WorkflowExecutor : Type 0 where
  pub registry : WorkflowRegistry
  pub store : Map WorkflowRun
  pub emitted : List Emitted
  pub concurrency : ℕ

pub record StartOptions : Type 0 where
  pub version : Option String
  pub correlation_id : Option String
  pub mission_id : Option String

-- What one drive meets: the rounds' environments and cancellations, the time it starts at, and fuel.
pub record Drive : Type 0 where
  pub fuel : ℕ
  pub rounds : ℕ → Round
  pub now : ℕ

abbrev pub fresh_step : StepDefinition → StepState
fresh_step step = record {
  id = step.id;
  status = StepStatus.pending;
  attempts = 0;
  output = none;
  error = none;
  approval_id = none;
  resume_at = none;
  sequence = none;
  started_at = none;
  completed_at = none;
}

-- `Object.fromEntries`, over the entries so far.
unfoldable pub initial_steps : List StepDefinition → Map StepState → Map StepState
initial_steps [] steps = steps
initial_steps (s ∷ ss) steps = initial_steps ss (set steps s.id (fresh_step s))

abbrev pub created_run : WorkflowDefinition → StartOptions → String → String → ℕ → WorkflowRun
created_run definition options run_id correlation_id now = record {
  id = run_id;
  definition_id = definition.id;
  definition_version = definition.version;
  status = RunStatus.pending;
  outputs = [];
  steps = initial_steps definition.steps [];
  correlation_id = or_default options.correlation_id correlation_id;
  mission_id = options.mission_id;
  error = none;
  created_at = now;
  started_at = none;
  completed_at = none;
}

-- A drive from its first statements on; `none` when the fuel ran out.
unfoldable pub drive :
    WorkflowExecutor
    → WorkflowDefinition
    → WorkflowRun
    → Drive
    → Option (WorkflowExecutor × WorkflowRun)
drive executor definition run d =
    let first : Exec = record {
      store = executor.store;
      live = record {
        run = record run {
          status = RunStatus.running;
          started_at = some (or_default run.started_at d.now);
        };
        emitted = executor.emitted;
      };
    } in
    option_case (drive_loop d.fuel definition executor.concurrency d.rounds 0 first false) none
      (λ x. some (record executor { store = x.store; emitted = x.live.emitted }, x.live.run))

abbrev pub announce : Emitted → WorkflowExecutor → WorkflowExecutor
announce e executor = record executor { emitted = executor.emitted ++ e ∷ [] }

abbrev pub store_run : WorkflowExecutor → WorkflowRun → WorkflowExecutor
store_run executor run = record executor { store = set executor.store run.id run }

-- `start`; the ids are those that are generated.
unfoldable pub start :
    WorkflowExecutor
    → String
    → StartOptions
    → String
    → String
    → Drive
    → Result (Option (WorkflowExecutor × WorkflowRun))
unfolding drive
start executor definition_id options run_id correlation_id d =
    find_definition executor.registry definition_id options.version >>= λ definition.
    let run = created_run definition options run_id correlation_id d.now in
    throw_if (ltb 0 (length (missing_handlers executor.registry definition)))
      (workflow_error definition.id)
    >> returns (
        drive (announce (of_run workflow_started RunStatus.pending) (store_run executor run))
          definition run d)

abbrev pub is_suspended : RunStatus → Bool
is_suspended RunStatus.suspended = true
is_suspended _ = false

abbrev pub require_run : WorkflowExecutor → String → Result WorkflowRun
require_run executor run_id =
    option_case (get executor.store run_id) (throws (workflow_error run_id)) (λ run. returns run)

-- `resume`, on the run that was loaded.
unfoldable pub resume_loaded :
    WorkflowExecutor → WorkflowRun → Drive → Result (Option (WorkflowExecutor × WorkflowRun))
unfolding drive
resume_loaded executor run d =
    let resumed : Result (Option (WorkflowExecutor × WorkflowRun)) =
      find_definition executor.registry run.definition_id (some run.definition_version)
      >>= λ definition. returns (
          drive (announce (of_run workflow_resumed RunStatus.suspended) executor) definition run
            d) in
    if is_suspended run.status then resumed else returns (some (executor, run))

unfoldable pub resume :
    WorkflowExecutor → String → Drive → Result (Option (WorkflowExecutor × WorkflowRun))
unfolding resume_loaded
resume executor run_id d = require_run executor run_id >>= λ run. resume_loaded executor run d

-- `cancel` of a run that no drive holds; `cancel_stored` is its effect on one that is driven.
unfoldable pub cancel : WorkflowExecutor → String → ℕ → Result (WorkflowExecutor × WorkflowRun)
unfolding is_terminal cancelled_run
cancel executor run_id now = require_run executor run_id >>= λ run. returns (
    if is_terminal run.status then (executor, run) else (
      announce (of_run workflow_cancelled RunStatus.cancelled)
          (store_run executor (cancelled_run run now)),
      cancelled_run run now,
    ))

abbrev pub is_event : StepKind → Bool
is_event StepKind.event = true
is_event _ = false

-- `step.kind === "event" && step.event?.type === type`.
abbrev pub awaits : StepDefinition → String → Bool
awaits step type = is_event step.kind && option_case step.event false (λ e. e.type == type)

-- The loop of `notifyEvent`, and whether a step was waiting for the event.
unfoldable pub deliver : List StepDefinition → String → Json → ℕ → Live → Live × Bool
deliver [] type payload now live = (live, false)
deliver (step ∷ steps) type payload now live =
    option_case (get live.run.steps step.id) (deliver steps type payload now live) (λ state.
      if is_waiting state.status && awaits step type
      then (
        (deliver steps type payload now (
            emit_step step_completed step.id
              (with_run live (complete_step live.run step.id state payload now)))).0,
        true,
      )
      else deliver steps type payload now live)

-- `notifyEvent`, on the run that was loaded; the inner `none` is the answer `undefined`.
unfoldable pub notify_loaded :
    WorkflowExecutor
    → WorkflowRun
    → String
    → Json
    → Drive
    → Result (Option (WorkflowExecutor × Option WorkflowRun))
unfolding drive deliver
notify_loaded executor run type payload d =
    if is_suspended run.status
    then (find_definition executor.registry run.definition_id (some run.definition_version)
        >>= λ definition.
            let live : Live = record { run = run; emitted = executor.emitted } in
            let (live', matched) = deliver definition.steps type payload d.now live in
            if matched
            then returns (
                option_case
                  (drive (record (store_run executor live'.run) { emitted = live'.emitted })
                    definition live'.run d)
                  none (λ r. some (r.0, some r.1)))
            else returns (some (executor, none)))
    else returns (some (executor, none))

unfoldable pub notify_event :
    WorkflowExecutor
    → String
    → String
    → Json
    → Drive
    → Result (Option (WorkflowExecutor × Option WorkflowRun))
unfolding notify_loaded
notify_event executor run_id type payload d =
    option_case (get executor.store run_id) (returns (some (executor, none)))
      (λ run. notify_loaded executor run type payload d)

abbrev pub elapsed : ℕ → StepState → Bool
elapsed now s = is_waiting s.status && option_case s.resume_at false (λ at. leb at now)

unfoldable pub due_runs : WorkflowExecutor → ℕ → List WorkflowRun
unfolding list_runs
due_runs executor now =
    keep_if (λ run. any (elapsed now) (values run.steps)) (list_runs executor.store suspended_runs)
