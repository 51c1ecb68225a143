-- ===== src/Workflow/Samples.antt =====
-- packages/workflow-engine/src: a workflow of two dependent steps, and an environment for it.
use ryvan_os.Workflow.Environment.{ids, Settles, Env}
use ryvan_os.Workflow.Driver.{never, Exec, Round}
use ryvan_os.Workflow.Types.{
  StepStatus, StepKind, ApprovalGateStatus, RunStatus, WorkflowDefinition, Json, WorkflowRun,
  StepDefinition, StepState,
}
use ryvan_os.Base.{
  ℕ, String, refl, true, false, none, some, List, [], ◌∷◌, Distinct, Outcome, returned, threw,
}

abbrev pub step_named : String → List String → StepDefinition
step_named id needs = record {
  id = id;
  name = id;
  kind = StepKind.action;
  depends_on = needs;
  handler = some "work";
  compensate = some "undo";
  condition = false;
  approval = none;
  schedule = none;
  event = none;
  retry = none;
  continue_on_error = false;
}

abbrev pub two_steps : WorkflowDefinition
two_steps = record {
  id = "flow";
  version = "1";
  steps = step_named "a" [] ∷ step_named "b" ("a" ∷ []) ∷ [];
  retry = none;
}

abbrev pub fresh_state : String → StepState
fresh_state id = record {
  id = id;
  status = StepStatus.pending;
  attempts = 0;
  output = none;
  error = none;
  approval_id = none;
  resume_at = none;
  sequence = none;
  started_at = none;
  completed_at = none;
}

abbrev pub fresh_run : WorkflowRun
fresh_run = record {
  id = "run-1";
  definition_id = "flow";
  definition_version = "1";
  status = RunStatus.running;
  outputs = [];
  steps = ("a", fresh_state "a") ∷ ("b", fresh_state "b") ∷ [];
  correlation_id = "c";
  mission_id = none;
  error = none;
  created_at = 0;
  started_at = some 0;
  completed_at = none;
}

abbrev pub call : String → ℕ → Outcome Json
call id attempt = returned "done"

abbrev pub env : Env
env = record {
  now = 7;
  gate = false;
  check = λ id. ApprovalGateStatus.pending;
  request = λ s. threw "no gate";
  condition = λ id. returned true;
  handler = λ name. some call;
  order = λ steps. steps;
}

pub env-Settles : Settles env
env-Settles = record { only = λ s xs m. m; every = λ s xs m. m; once = λ xs d. d }

abbrev pub fresh : Exec
fresh = record { store = []; live = record { run = fresh_run; emitted = [] } }

abbrev pub rounds : ℕ → Round
rounds n = record { env = env; cancels = never }

pub distinct : Distinct (ids two_steps.steps)
distinct = (refl, (refl, tt))
