-- ===== src/Workflow/Validator/Tests.antt =====
-- A valid definition, and one with a cycle.
use ryvan_os.Workflow.Driver.Progressing.{pending_in}
use ryvan_os.Workflow.Validator.Checked.{validated_drive-ends, DependsWell}
use ryvan_os.Workflow.Validator.{
  validate_depends, validate_dependencies, validate_step, validate_ids, walk, find_cycle,
  validate_definition,
}
use ryvan_os.Workflow.Environment.{Env, Settles, ids}
use ryvan_os.Workflow.Types.{
  ApprovalGateStatus, StepKind, RunStatus, WorkflowDefinition, StepDefinition,
}
use ryvan_os.Workflow.Driver.{drive_loop, never, Round, Exec}
use ryvan_os.Base.{
  ℕ, ◌+◌, String, ◌≡◌, refl, true, false, none, some, List, [], ◌∷◌, arith, Distinct, is_some, All,
  returns, returned, threw,
}

abbrev pub task : String → List String → StepDefinition
task id needs = record {
  id = id;
  name = id;
  kind = StepKind.action;
  depends_on = needs;
  handler = some "work";
  compensate = none;
  condition = false;
  approval = none;
  schedule = none;
  event = none;
  retry = none;
  continue_on_error = false;
}

abbrev pub flow : List StepDefinition → WorkflowDefinition
flow steps = record { id = "flow"; version = "1"; steps = steps; retry = none }

abbrev pub chain : WorkflowDefinition
chain = flow (task "a" [] ∷ task "b" ("a" ∷ []) ∷ [])

abbrev circle : WorkflowDefinition
circle = flow (task "a" ("b" ∷ []) ∷ task "b" ("a" ∷ []) ∷ [])

circle_found : find_cycle circle.steps ≡ some ("a" ∷ "b" ∷ "a" ∷ [])
unfolding find_cycle walk
circle_found = refl

chain_valid : validate_definition chain ≡ returns tt
unfolding validate_definition validate_ids validate_step validate_dependencies validate_depends
    find_cycle walk
chain_valid = refl

abbrev quiet : Env
quiet = record {
  now = 7;
  gate = false;
  check = λ id. ApprovalGateStatus.pending;
  request = λ s. threw "no gate";
  condition = λ id. returned true;
  handler = λ name. none;
  order = λ steps. steps;
}

abbrev quiet_rounds : ℕ → Round
quiet_rounds n = record { env = quiet; cancels = never }

quiet-Settles : Settles quiet
quiet-Settles = record { only = λ s xs m. m; every = λ s xs m. m; once = λ xs d. d }

abbrev begun_exec : Exec
begun_exec = record {
  store = [];
  live = record {
    run = record {
      id = "run-1";
      definition_id = "flow";
      definition_version = "1";
      status = RunStatus.running;
      outputs = [];
      steps = [];
      correlation_id = "c";
      mission_id = none;
      error = none;
      created_at = 0;
      started_at = some 0;
      completed_at = none;
    };
    emitted = [];
  };
}

validated_drive-ends_example :
    Distinct (ids chain.steps)
    × All (DependsWell (ids chain.steps)) chain.steps
    × (is_some (
          drive_loop
            (pending_in chain.steps begun_exec.live.run.steps + 1)
            chain
            5
            quiet_rounds
            0
            begun_exec
            false)
        ≡ true)
validated_drive-ends_example =
    validated_drive-ends chain 5 quiet_rounds begun_exec chain_valid (omega arith)
      (λ n. quiet-Settles)
