-- ===== src/Workflow/Types.antt =====
-- packages/workflow-engine/src/types.ts. Payloads of the JSON kind are opaque texts.
use ryvan_os.Base.{ℕ, String, Bool, Option, List}
use ryvan_os.Base.Map.{Map}

abbrev pub Json : Type 0
Json = String

-- `unknown` stands for every other string, which the validator refuses.
pub data StepKind : Type 0 where
  action conditional approval schedule event unknown : StepKind

pub data RunStatus : Type 0 where
  pending running suspended completed failed compensating compensated cancelled : RunStatus

pub data StepStatus : Type 0 where
  pending running waiting completed failed skipped compensated : StepStatus

pub record RetryPolicy : Type 0 where
  pub max_attempts : ℕ

pub record ApprovalSpec : Type 0 where
  pub action : Option String
  pub resource : Option String
  pub reason : String
  pub ttl_ms : Option ℕ

pub record ScheduleSpec : Type 0 where
  pub delay_ms : Option ℕ
  pub resume_at : Option ℕ

pub record EventWaitSpec : Type 0 where
  pub type : String
  pub timeout_ms : Option ℕ
  pub match_correlation_id : Bool

-- `condition` says whether the step has one; what it answers is the environment's.
pub record StepDefinition : Type 0 where
  pub id : String
  pub name : String
  pub kind : StepKind
  pub depends_on : List String
  pub handler : Option String
  pub compensate : Option String
  pub condition : Bool
  pub approval : Option ApprovalSpec
  pub schedule : Option ScheduleSpec
  pub event : Option EventWaitSpec
  pub retry : Option RetryPolicy
  pub continue_on_error : Bool

pub record WorkflowDefinition : Type 0 where
  pub id : String
  pub version : String
  pub steps : List StepDefinition
  pub retry : Option RetryPolicy

pub record StepState : Type 0 where
  pub id : String
  pub status : StepStatus
  pub attempts : ℕ
  pub output : Option Json
  pub error : Option String
  pub approval_id : Option String
  pub resume_at : Option ℕ
  pub sequence : Option ℕ
  pub started_at : Option ℕ
  pub completed_at : Option ℕ

pub record WorkflowRun : Type 0 where
  pub id : String
  pub definition_id : String
  pub definition_version : String
  pub status : RunStatus
  pub outputs : Map Json
  pub steps : Map StepState
  pub correlation_id : String
  pub mission_id : Option String
  pub error : Option String
  pub created_at : ℕ
  pub started_at : Option ℕ
  pub completed_at : Option ℕ

pub data ApprovalGateStatus : Type 0 where
  pending granted denied expired : ApprovalGateStatus

pub record Failure : Type 0 where
  pub step_id : String
  pub error : String
