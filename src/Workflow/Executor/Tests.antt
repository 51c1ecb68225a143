-- ===== src/Workflow/Executor/Tests.antt =====
-- The entry points on a registry of one workflow.
use ryvan_os.Workflow.Types.{StepState, RunStatus, WorkflowRun}
use ryvan_os.Workflow.Executor.Cancelling.{cancel_lem}
use ryvan_os.Workflow.Executor.Ending.{start-ends, IsRegistry}
use ryvan_os.Workflow.Driver.{is_terminal_step, is_terminal}
use ryvan_os.Workflow.Validator.{
  find_cycle, validate_depends, validate_dependencies, validate_step, validate_ids,
  validate_definition,
}
use ryvan_os.Workflow.Executor.{start, cancel, StartOptions, WorkflowExecutor, Drive}
use ryvan_os.Workflow.Registry.{WorkflowRegistry, missing_handlers, find_definition}
use ryvan_os.Base.{
  String, ◌≡◌, refl, true, false, Option, none, some, [], ◌∷◌, arith, ◌==◌, is_some, All, returns,
}
use ryvan_os.Base.Map.{get, values}
use ryvan_os.Workflow.Samples.{two_steps, fresh_run, call, env-Settles, rounds}

abbrev registry : WorkflowRegistry
registry = record {
  definitions = ("flow@1", two_steps) ∷ [];
  latest = ("flow", "1") ∷ [];
  handlers = ("work", call) ∷ ("undo", call) ∷ [];
}

registry-IsRegistry : IsRegistry registry
unfolding validate_definition validate_ids validate_step validate_dependencies validate_depends
    find_cycle
registry-IsRegistry = (refl, tt)

abbrev executor : WorkflowExecutor
executor = record { registry = registry; store = []; emitted = []; concurrency = 5 }

abbrev no_options : StartOptions
no_options = record { version = none; correlation_id = none; mission_id = none }

abbrev three_rounds : Drive
three_rounds = record { fuel = 3; rounds = rounds; now = 7 }

start-ends_example :
    (answer : Option (WorkflowExecutor × WorkflowRun)) × (start executor "flow" no_options "run-1"
        "c" three_rounds
      ≡ returns answer)
    × (is_some answer ≡ true)
unfolding find_definition missing_handlers get
start-ends_example =
    start-ends executor two_steps three_rounds registry-IsRegistry (omega arith) (λ n. env-Settles)
      (omega arith) "flow" no_options "run-1" "c" refl refl

abbrev stored : WorkflowExecutor
stored = record executor { store = ("run-1", fresh_run) ∷ [] }

cancel_lem_example :
    (next : WorkflowExecutor) × (ended : WorkflowRun) × (cancel stored "run-1" 8
      ≡ returns (next, ended))
    × (get next.store "run-1" ≡ some ended)
    × (ended.status ≡ RunStatus.cancelled)
    × All (λ s. is_terminal_step s.status ≡ true) (values ended.steps)
    × ((id : String) (s : StepState)
        → get fresh_run.steps id ≡ some s
        → is_terminal_step s.status ≡ true
        → get ended.steps id ≡ some s)
    × ((id : String) → ("run-1" == id) ≡ false → get next.store id ≡ get stored.store id)
    × (cancel next "run-1" 9 ≡ returns (next, ended))
unfolding get is_terminal
cancel_lem_example = cancel_lem stored fresh_run 8 9 refl refl
