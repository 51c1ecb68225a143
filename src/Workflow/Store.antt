-- ===== src/Workflow/Store.antt =====
-- packages/workflow-engine/src/store.ts: the process-local run store. Runs are values here, so what
-- the source clones needs no cloning; `get` is that of the map.
use ryvan_os.Base.{
  ℕ, String, Bool, true, ◌&&◌, ◌||◌, Option, none, some, List, nat_eq, is_empty, option_case,
  opt_eq, keep_if, sort_by,
}
use ryvan_os.Base.Map.{Map, set, values}
use ryvan_os.Workflow.Types.{WorkflowRun, RunStatus}

pub record RunFilter : Type 0 where
  pub status : Option RunStatus
  pub definition_id : Option String
  pub mission_id : Option String

abbrev status_code : RunStatus → ℕ
status_code RunStatus.pending = 0
status_code RunStatus.running = 1
status_code RunStatus.suspended = 2
status_code RunStatus.completed = 3
status_code RunStatus.failed = 4
status_code RunStatus.compensating = 5
status_code RunStatus.compensated = 6
status_code RunStatus.cancelled = 7

-- `===` on statuses.
abbrev pub same_status : RunStatus → RunStatus → Bool
same_status a b = nat_eq (status_code a) (status_code b)

-- A text in a filter counts only if it is truthy.
abbrev pub text_filter : Option String → Option String → Bool
text_filter none value = true
text_filter (some wanted) value = is_empty wanted || opt_eq value (some wanted)

abbrev pub passes : RunFilter → WorkflowRun → Bool
passes filter run =
    option_case filter.status true (λ s. same_status run.status s)
    && text_filter filter.definition_id (some run.definition_id)
    && text_filter filter.mission_id run.mission_id

unfoldable pub save_run : Map WorkflowRun → WorkflowRun → Map WorkflowRun
save_run store run = set store run.id run

-- `list`, oldest first.
unfoldable pub list_runs : Map WorkflowRun → RunFilter → List WorkflowRun
list_runs store filter = sort_by (λ r. r.created_at) (keep_if (passes filter) (values store))

abbrev pub suspended_runs : RunFilter
suspended_runs = record {
  status = some RunStatus.suspended;
  definition_id = none;
  mission_id = none;
}
