-- ===== src/Missions/Service.antt =====
-- packages/mission-engine/src/mission-service.ts. Planner, workflow runner and policy gate are
-- parameters. Other calls may reach the service while `execute` awaits the planner and the start of
-- the run; those that arrive at other points are left out.
pub mod Gating
pub mod Ticking
pub mod Ending
pub mod Overwriting
pub mod Tests
use ryvan_os.Missions.State.{
  Missions, Ports, MissionEventType, save_and_emit, save_only, fail, settle, starts, interrupt_all,
  Meanwhile,
}
use Prim.Native.String.{◌++◌ as append}
use ryvan_os.Missions.Types.{
  PolicyVerdict, PolicyEffectLike, ApprovalAnswer, LaunchMissionInput, Mission, MissionStatus,
  MissionPlan, WorkflowRunHandle, WorkflowRunner, PolicyGate,
}
use ryvan_os.Missions.Store.{MissionFilter, no_filter, list_missions}
use ryvan_os.Base.Map.{get}
use ryvan_os.Base.{
  ℕ, String, Bool, true, false, Option, none, some, List, [], ◌∷◌, ◌++◌, is_empty, if◌then◌else◌,
  or_default, option_case, validation_error, thrown, Result, throws, returns, Outcome, returned,
  threw,
}

abbrev pub as_planning : Mission → ℕ → Mission
as_planning mission now = record mission {
  status = MissionStatus.planning;
  started_at = some (or_default mission.started_at now);
}

abbrev pub as_planned : Mission → MissionPlan → Mission
as_planned mission plan = record mission {
  workflow_id = some plan.workflow_id;
  workflow_version = plan.workflow_version;
}

abbrev pub as_running : Mission → Mission
as_running mission = record mission { status = MissionStatus.running }

abbrev pub with_run : Mission → WorkflowRunHandle → Mission
with_run mission handle = record mission { run_id = some handle.id }

abbrev pub as_awaiting : Mission → PolicyVerdict → Mission
as_awaiting mission verdict = record mission {
  status = MissionStatus.awaiting_approval;
  approval_id = verdict.approval_id;
}

-- `{ status: "awaiting_approval" }`.
abbrev pub awaiting_only : MissionFilter
awaiting_only = record no_filter { status = some MissionStatus.awaiting_approval }

module _ (ports : Ports) (meanwhile : Meanwhile) (now : ℕ) where
  -- From the answer of the workflow runner on.
  abbrev pub run_started : Missions → Mission → Outcome WorkflowRunHandle → Missions × Mission
  run_started s mission (threw e) = fail s mission (append "workflow start failed: " e) now
  run_started s mission (returned handle) =
      settle (save_only s (with_run mission handle)) (with_run mission handle) handle now

  -- The call of `workflows.start`, and what arrives while it is awaited.
  abbrev pub asked_to_start : Missions → Mission → MissionPlan → Missions
  asked_to_start s mission plan =
      interrupt_all ports meanwhile.starting
        (record s { calls = s.calls ++ starts plan.workflow_id mission.id ∷ [] })

  -- From the answer of the planner on.
  abbrev pub plan_made :
      WorkflowRunner → Missions → Mission → Outcome MissionPlan → Missions × Mission
  plan_made runner s mission (threw e) = fail s mission (append "planning failed: " e) now
  plan_made runner s mission (returned plan) =
      let planned = as_planned mission plan in
      let running = as_running planned in
      let told =
        save_and_emit (save_and_emit s planned MissionEventType.mission_planned) running
          MissionEventType.mission_started in
      run_started (asked_to_start told running plan) running (runner.start plan running)

  unfoldable pub execute : Missions → Mission → Missions × Mission
  execute s mission =
      let planning = as_planning mission now in
      option_case ports.workflows (fail s mission "no workflow runner is configured" now) (λ runner.
        plan_made runner (interrupt_all ports meanwhile.planning (save_only s planning)) planning
          (ports.planner planning))

  abbrev pub verdict_given : PolicyEffectLike → PolicyVerdict → Missions → Mission → Missions × Bool
  verdict_given PolicyEffectLike.allow verdict s mission = (s, true)
  verdict_given PolicyEffectLike.deny verdict s mission =
      ((fail s mission (append "policy denied: " verdict.reason) now).0, false)
  verdict_given PolicyEffectLike.require_approval verdict s mission = (
    save_and_emit s (as_awaiting mission verdict) MissionEventType.mission_awaiting_approval,
    false,
  )

  abbrev pub enforced : Missions → Mission → Outcome PolicyVerdict → Missions × Outcome Bool
  enforced s mission (threw e) = (s, threw e)
  enforced s mission (returned verdict) =
      let (after, cleared) = verdict_given verdict.effect verdict s mission in
      (after, returned cleared)

  -- Whether the mission may proceed, or the error of the policy gate.
  abbrev pub check_policy : Missions → Mission → Option ℕ → Missions × Outcome Bool
  check_policy s mission estimated_cost_usd =
      option_case ports.policy (s, returned true)
        (λ gate. enforced s mission (gate.enforce mission estimated_cost_usd))

  abbrev pub new_mission : String → String → LaunchMissionInput → Mission
  new_mission id correlation_id input = record {
    id = id;
    type = input.type;
    name = or_default input.name input.type;
    goal = or_default input.goal input.type;
    status = MissionStatus.created;
    input = or_default input.input [];
    subject = input.subject;
    correlation_id = or_default input.correlation_id correlation_id;
    workflow_id = none;
    workflow_version = none;
    run_id = none;
    approval_id = none;
    result = none;
    error = none;
    metadata = input.metadata;
    created_at = now;
    started_at = none;
    completed_at = none;
  }

  -- From the policy's answer on.
  unfoldable pub policy_checked : Mission → Missions → Outcome Bool → Missions × Result Mission
  unfolding execute
  policy_checked mission s (threw e) = (s, throws (thrown e))
  policy_checked mission s (returned false) =
      (s, returns (or_default (get s.store mission.id) mission))
  policy_checked mission s (returned true) =
      let (after, ended) = execute s mission in (after, returns ended)

  -- `id` and `correlation_id` are what `generateId` returns.
  unfoldable pub launch :
      Missions → String → String → LaunchMissionInput → Missions × Result Mission
  unfolding policy_checked
  launch s id correlation_id input =
      let mission = new_mission id correlation_id input in
      let told = save_and_emit s mission MissionEventType.mission_created in
      let (checked, cleared) = check_policy told mission input.estimated_cost_usd in
      if is_empty input.type
      then (s, throws (validation_error "type"))
      else policy_checked mission checked cleared

  unfoldable pub answered : Missions → Mission → Outcome ApprovalAnswer → Missions × List Mission
  unfolding execute
  answered s mission (threw e) = (s, [])
  answered s mission (returned ApprovalAnswer.pending) = (s, [])
  answered s mission (returned ApprovalAnswer.granted) =
      let (after, ended) = execute s mission in (after, ended ∷ [])
  answered s mission (returned ApprovalAnswer.denied) =
      let (after, ended) = fail s mission "approval denied" now in (after, ended ∷ [])
  answered s mission (returned ApprovalAnswer.expired) =
      let (after, ended) = fail s mission "approval expired" now in (after, ended ∷ [])

  unfoldable pub recheck : PolicyGate → Missions → Mission → Missions × List Mission
  unfolding answered
  recheck gate s mission =
      option_case mission.approval_id (s, [])
        (λ id. if is_empty id then (s, []) else answered s mission (gate.check_approval id))

  unfoldable pub recheck_all : PolicyGate → List Mission → Missions → Missions × List Mission
  unfolding recheck
  recheck_all gate [] s = (s, [])
  recheck_all gate (m ∷ ms) s =
      let (after, advanced) = recheck gate s m in
      let (end, more) = recheck_all gate ms after in (end, advanced ++ more)

  unfoldable pub tick : Missions → Missions × List Mission
  unfolding recheck_all
  tick s =
      let blocked = list_missions s.store awaiting_only in
      option_case ports.policy (s, []) (λ gate. recheck_all gate blocked s)
