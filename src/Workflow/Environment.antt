-- ===== src/Workflow/Environment.antt =====
-- What the workflow executor reads from outside: the clock, the approval gate, the registered
-- handlers and conditions, and the order in which concurrent steps settle.
use Prim.Native.String.{◌++◌ as append}
use ryvan_os.Base.{
  ℕ, String, Bool, Option, List, [], ◌∷◌, ◌++◌, map, quoted, Distinct, Member, Outcome,
}
use ryvan_os.Workflow.Types.{Json, StepDefinition, ApprovalGateStatus, WorkflowRun, RunStatus}

-- One round of the executor's loop sees one environment. `condition` and the handlers answer by
-- step id, a handler also by the attempt; a gate's `check` is taken never to reject.
pub record Env : Type 0 where
  pub now : ℕ
  pub gate : Bool
  pub check : String → ApprovalGateStatus
  pub request : StepDefinition → Outcome (String × ApprovalGateStatus)
  pub condition : String → Outcome Bool
  pub handler : String → Option (String → ℕ → Outcome Json)
  pub order : List StepDefinition → List StepDefinition

-- Steps that run concurrently settle in some order of theirs, each of them once.
abbrev pub ids : List StepDefinition → List String
ids = map (λ s. s.id)

pub record Settles (env : Env) : Type 0 where
  pub only : (s : StepDefinition) (xs : List StepDefinition) → Member s (env.order xs) → Member s xs
  pub every :
      (s : StepDefinition) (xs : List StepDefinition) → Member s xs → Member s (env.order xs)
  pub once : (xs : List StepDefinition) → Distinct (ids xs) → Distinct (ids (env.order xs))

pub data RunEvent : Type 0 where
  workflow_started workflow_resumed workflow_suspended workflow_completed workflow_failed : RunEvent
  workflow_compensated workflow_cancelled : RunEvent

pub data StepEvent : Type 0 where
  step_started step_completed step_failed step_skipped : StepEvent

-- What the executor puts on the event bus: run events carry the status, step events the step.
pub data Emitted : Type 0 where
  of_run : RunEvent → RunStatus → Emitted
  of_step : StepEvent → String → Emitted

-- A run in the executor's hands, with what it has emitted.
pub record Live : Type 0 where
  pub run : WorkflowRun
  pub emitted : List Emitted

abbrev pub emit : RunEvent → Live → Live
emit e live = record live { emitted = live.emitted ++ of_run e live.run.status ∷ [] }

abbrev pub emit_step : StepEvent → String → Live → Live
emit_step e id live = record live { emitted = live.emitted ++ of_step e id ∷ [] }

-- The message of a `WorkflowError` (packages/common/src/errors.ts).
abbrev pub workflow_message : String → String → String
workflow_message id reason = append "Workflow " (append (quoted id) (append ": " reason))
