-- ===== src/Missions/State.antt =====
-- packages/mission-engine/src/mission-service.ts: what the service stores and emits, how a mission
-- ends, and the calls that end one.
pub mod Ending
use ryvan_os.Missions.Types.{
  Mission, MissionStatus, MissionPlan, RunStatusLike, WorkflowRunHandle, WorkflowRunner, PolicyGate,
}
use ryvan_os.Missions.Store.{save, no_filter, list_missions}
use ryvan_os.Base.Map.{Map, get}
use ryvan_os.Base.{
  ℕ, String, Bool, true, false, Option, none, some, List, [], ◌∷◌, ◌++◌, is_empty, if◌then◌else◌,
  is_some, or_default, option_case, not_found_error, Result, throws, returns, Outcome,
}

pub data MissionEventType : Type 0 where
  mission_created mission_awaiting_approval mission_planned mission_started mission_completed
        mission_failed mission_cancelled :
      MissionEventType

-- An event without the data that its type adds.
pub record MissionEvent : Type 0 where
  pub type : MissionEventType
  pub mission_id : String
  pub status : MissionStatus
  pub correlation_id : String

-- What the service asks of the workflow runner.
pub data RunnerCall : Type 0 where
  starts : String → String → RunnerCall
  cancels : String → RunnerCall

pub record Missions : Type 0 where
  pub store : Map Mission
  pub events : List MissionEvent
  pub calls : List RunnerCall

pub record Ports : Type 0 where
  pub planner : Mission → Outcome MissionPlan
  pub workflows : Option WorkflowRunner
  pub policy : Option PolicyGate

abbrev pub is_terminal : MissionStatus → Bool
is_terminal MissionStatus.completed = true
is_terminal MissionStatus.failed = true
is_terminal MissionStatus.cancelled = true
is_terminal _ = false

abbrev pub event_of : MissionEventType → Mission → MissionEvent
event_of type mission = record {
  type = type;
  mission_id = mission.id;
  status = mission.status;
  correlation_id = mission.correlation_id;
}

abbrev pub save_and_emit : Missions → Mission → MissionEventType → Missions
save_and_emit s mission type = record s {
  store = save s.store mission;
  events = s.events ++ event_of type mission ∷ [];
}

abbrev pub save_only : Missions → Mission → Missions
save_only s mission = record s { store = save s.store mission }

abbrev pub as_failed : Mission → String → ℕ → Mission
as_failed mission error now = record mission {
  status = MissionStatus.failed;
  error = some error;
  completed_at = some now;
}

abbrev pub fail : Missions → Mission → String → ℕ → Missions × Mission
fail s mission error now =
    let failed = as_failed mission error now in
    (save_and_emit s failed MissionEventType.mission_failed, failed)

abbrev pub as_completed : Mission → WorkflowRunHandle → ℕ → Mission
as_completed mission handle now = record mission {
  status = MissionStatus.completed;
  result = handle.outputs;
  completed_at = some now;
}

abbrev pub as_cancelled : Mission → ℕ → Mission
as_cancelled mission now = record mission {
  status = MissionStatus.cancelled;
  completed_at = some now;
}

abbrev pub settle_as :
    RunStatusLike → Missions → Mission → WorkflowRunHandle → ℕ → Missions × Mission
settle_as RunStatusLike.completed s mission handle now =
    let done = as_completed mission handle now in
    (save_and_emit s done MissionEventType.mission_completed, done)
settle_as RunStatusLike.failed s mission handle now =
    fail s mission (or_default handle.error "workflow failed") now
settle_as RunStatusLike.compensated s mission handle now =
    fail s mission (or_default handle.error "workflow failed") now
settle_as RunStatusLike.cancelled s mission handle now =
    let gone = as_cancelled mission now in
    (save_and_emit s gone MissionEventType.mission_cancelled, gone)
settle_as _ s mission handle now = (s, mission)

abbrev pub settle : Missions → Mission → WorkflowRunHandle → ℕ → Missions × Mission
settle s mission handle now = settle_as handle.status s mission handle now

abbrev pub asks_cancel : Ports → Mission → List RunnerCall
asks_cancel ports mission =
    if is_some ports.workflows
    then option_case mission.run_id []
        (λ run_id. if is_empty run_id then [] else cancels run_id ∷ [])
    else []

-- An error of the workflow's cancellation is only logged.
unfoldable pub cancel : Ports → Missions → String → ℕ → Result (Missions × Mission)
cancel ports s mission_id now =
    option_case (get s.store mission_id) (throws (not_found_error "Mission" mission_id)) (λ mission.
      let gone = as_cancelled mission now in
      let asked = record s { calls = s.calls ++ asks_cancel ports mission } in
      returns (
        if is_terminal mission.status
        then (s, mission)
        else (save_and_emit asked gone MissionEventType.mission_cancelled, gone)))

pub record WorkflowFinishedEvent : Type 0 where
  pub run_id : String
  pub mission_id : Option String
  pub error : Option String

abbrev pub first_mission : List Mission → Option Mission
first_mission [] = none
first_mission (m ∷ ms) = some m

abbrev pub mission_by_run : Missions → String → Option Mission
mission_by_run s run_id =
    first_mission (list_missions s.store (record no_filter { run_id = some run_id }))

-- An empty mission id is none.
abbrev pub mission_of : Missions → WorkflowFinishedEvent → Option Mission
mission_of s event =
    option_case event.mission_id (mission_by_run s event.run_id)
      (λ id. if is_empty id then mission_by_run s event.run_id else get s.store id)

abbrev pub finish : Ports → Missions → WorkflowFinishedEvent → ℕ → Mission → Missions
finish ports s event now mission =
    option_case ports.workflows
      (fail s mission (or_default event.error "workflow finished without a runner configured")
        now).0
      (λ runner.
        option_case (runner.get event.run_id) s (λ handle. (settle s mission handle now).0))

-- An event without a run id is ignored.
unfoldable pub on_workflow_finished : Ports → Missions → WorkflowFinishedEvent → ℕ → Missions
on_workflow_finished ports s event now =
    let found =
      option_case (mission_of s event) s
        (λ mission. if is_terminal mission.status then s else finish ports s event now mission) in
    if is_empty event.run_id then s else found

pub data Interruption : Type 0 where
  cancelling : String → ℕ → Interruption
  finishing : WorkflowFinishedEvent → ℕ → Interruption

abbrev pub state_after : Missions → Result (Missions × Mission) → Missions
state_after s (throws e) = s
state_after s (returns r) = r.0

unfoldable pub interrupt : Ports → Missions → Interruption → Missions
unfolding cancel on_workflow_finished
interrupt ports s (cancelling id now) = state_after s (cancel ports s id now)
interrupt ports s (finishing event now) = on_workflow_finished ports s event now

unfoldable pub interrupt_all : Ports → List Interruption → Missions → Missions
unfolding interrupt
interrupt_all ports [] s = s
interrupt_all ports (i ∷ is) s = interrupt_all ports is (interrupt ports s i)

-- The calls that arrive while the planner and the start of the run are awaited.
pub record Meanwhile : Type 0 where
  pub planning : List Interruption
  pub starting : List Interruption
