-- ===== src/Missions/Types.antt =====
-- packages/mission-engine/src/types.ts. Values of inputs, results and metadata are opaque texts.
use ryvan_os.Base.Map.{Map}
use ryvan_os.Base.{ℕ, String, Bool, true, false, Option, List, Outcome}

pub data MissionStatus : Type 0 where
  created awaiting_approval planning running verifying completed failed cancelled : MissionStatus

pub record MissionSubject : Type 0 where
  pub user_id : Option String
  pub agent_id : Option String
  pub org_id : Option String
  pub project_id : Option String
  pub roles : List String

pub record Mission : Type 0 where
  pub id : String
  pub type : String
  pub name : String
  pub goal : String
  pub status : MissionStatus
  pub input : Map String
  pub subject : Option MissionSubject
  pub correlation_id : String
  pub workflow_id : Option String
  pub workflow_version : Option String
  pub run_id : Option String
  pub approval_id : Option String
  pub result : Option String
  pub error : Option String
  pub metadata : Option String
  pub created_at : ℕ
  pub started_at : Option ℕ
  pub completed_at : Option ℕ

pub record MissionPlan : Type 0 where
  pub workflow_id : String
  pub workflow_version : Option String
  pub input : Map String
  pub rationale : Option String

pub data RunStatusLike : Type 0 where
  pending running suspended completed failed compensating compensated cancelled : RunStatusLike

pub record WorkflowRunHandle : Type 0 where
  pub id : String
  pub status : RunStatusLike
  pub outputs : Option String
  pub error : Option String

pub data PolicyEffectLike : Type 0 where
  allow deny require_approval : PolicyEffectLike

pub record PolicyVerdict : Type 0 where
  pub effect : PolicyEffectLike
  pub reason : String
  pub approval_id : Option String

pub data ApprovalAnswer : Type 0 where
  pending granted denied expired : ApprovalAnswer

-- The ports: what a workflow engine, a policy engine and a planner answer.
pub record WorkflowRunner : Type 0 where
  pub start : MissionPlan → Mission → Outcome WorkflowRunHandle
  pub get : String → Option WorkflowRunHandle

pub record PolicyGate : Type 0 where
  pub enforce : Mission → Option ℕ → Outcome PolicyVerdict
  pub check_approval : String → Outcome ApprovalAnswer

pub record LaunchMissionInput : Type 0 where
  pub type : String
  pub name : Option String
  pub goal : Option String
  pub input : Option (Map String)
  pub subject : Option MissionSubject
  pub correlation_id : Option String
  pub metadata : Option String
  pub estimated_cost_usd : Option ℕ

abbrev pub status_eq : MissionStatus → MissionStatus → Bool
status_eq MissionStatus.created MissionStatus.created = true
status_eq MissionStatus.awaiting_approval MissionStatus.awaiting_approval = true
status_eq MissionStatus.planning MissionStatus.planning = true
status_eq MissionStatus.running MissionStatus.running = true
status_eq MissionStatus.verifying MissionStatus.verifying = true
status_eq MissionStatus.completed MissionStatus.completed = true
status_eq MissionStatus.failed MissionStatus.failed = true
status_eq MissionStatus.cancelled MissionStatus.cancelled = true
status_eq _ _ = false
