-- ===== src/Missions/Service/Tests.antt =====
-- Missions of one type.
use ryvan_os.Missions.Store.{list_missions}
use ryvan_os.Missions.Types.{
  Mission, MissionStatus, MissionPlan, RunStatusLike, WorkflowRunHandle, WorkflowRunner, PolicyGate,
  PolicyVerdict, PolicyEffectLike, ApprovalAnswer, LaunchMissionInput,
}
use ryvan_os.Missions.Store.Keeping.{IsStore}
use ryvan_os.Missions.State.{
  interrupt_all, Missions, Ports, MissionEventType, Meanwhile, cancelling, finishing, interrupt,
  starts, event_of, WorkflowFinishedEvent,
}
use ryvan_os.Missions.Service.{as_planning, as_planned, as_running, execute, launch, tick}
use ryvan_os.Missions.Service.Gating.{launch_blocked}
use ryvan_os.Missions.Service.Ticking.{tick_gated, Granted}
use ryvan_os.Missions.Service.Ending.{stays, step, ticks, interrupts, terminal_stays}
use ryvan_os.Missions.Service.Overwriting.{start_overwrites_cancel, completed_twice}
use ryvan_os.Base.Map.{set, set, get}
use ryvan_os.Base.{◌≡◌, refl, none, some, [], ◌∷◌, ◌++◌, All, returns, returned, sort_by}

abbrev payroll : LaunchMissionInput
payroll = record {
  type = "payroll.run";
  name = none;
  goal = none;
  input = none;
  subject = none;
  correlation_id = none;
  metadata = none;
  estimated_cost_usd = some 20;
}

abbrev plan : MissionPlan
plan = record { workflow_id = "payroll"; workflow_version = none; input = []; rationale = none }

abbrev handle : RunStatusLike → WorkflowRunHandle
handle status = record { id = "run1"; status = status; outputs = some "{}"; error = none }

abbrev runner : RunStatusLike → WorkflowRunner
runner status = record { start = λ p m. returned (handle status); get = λ id. some (handle status) }

abbrev verdict : PolicyEffectLike → PolicyVerdict
verdict effect = record { effect = effect; reason = "budget"; approval_id = some "apr1" }

abbrev gate : PolicyEffectLike → PolicyGate
gate effect = record {
  enforce = λ m cost. returned (verdict effect);
  check_approval = λ id. returned ApprovalAnswer.granted;
}

abbrev ports : RunStatusLike → PolicyEffectLike → Ports
ports status effect = record {
  planner = λ m. returned plan;
  workflows = some (runner status);
  policy = some (gate effect);
}

abbrev quiet : Meanwhile
quiet = record { planning = []; starting = [] }

abbrev nothing : Missions
nothing = record { store = []; events = []; calls = [] }

abbrev after_launch : PolicyEffectLike → Missions
after_launch effect =
    (launch (ports RunStatusLike.completed effect) quiet 10 nothing "msn1" "corr1" payroll).0

launch_blocked_example :
    (after : Missions) × (m : Mission) × (launch
        (ports RunStatusLike.completed PolicyEffectLike.deny)
        quiet
        10
        nothing
        "msn1"
        "corr1"
        payroll
      ≡ (after, returns m))
    × (get after.store "msn1" ≡ some m)
    × (m.status ≡ MissionStatus.failed)
    × (after.calls ≡ [])
launch_blocked_example =
    launch_blocked (ports RunStatusLike.completed PolicyEffectLike.deny) quiet 10 nothing "msn1"
      "corr1" payroll (gate PolicyEffectLike.deny) (verdict PolicyEffectLike.deny) refl refl refl
      refl

one_mission : IsStore (after_launch PolicyEffectLike.require_approval).store
unfolding launch set
one_mission = record { keyed = (refl, tt); distinct = (refl, tt) }

approved_starts :
    (tick
      (ports RunStatusLike.completed PolicyEffectLike.require_approval)
      quiet
      20
      (after_launch PolicyEffectLike.require_approval)).0.calls
    ≡ starts "payroll" "msn1" ∷ []
unfolding tick list_missions sort_by launch set interrupt_all
approved_starts = refl

tick_gated_example :
    All
      (Granted
        (gate PolicyEffectLike.require_approval)
        (after_launch PolicyEffectLike.require_approval))
      (tick
        (ports RunStatusLike.completed PolicyEffectLike.require_approval)
        quiet
        20
        (after_launch PolicyEffectLike.require_approval)).0.calls
tick_gated_example =
    tick_gated (ports RunStatusLike.completed PolicyEffectLike.require_approval) quiet 20
      (after_launch PolicyEffectLike.require_approval) (gate PolicyEffectLike.require_approval)
      one_mission refl

abbrev ended : Mission
ended = record {
  id = "msn1";
  type = "payroll.run";
  name = "payroll.run";
  goal = "payroll.run";
  status = MissionStatus.cancelled;
  input = [];
  subject = none;
  correlation_id = "corr1";
  workflow_id = none;
  workflow_version = none;
  run_id = none;
  approval_id = none;
  result = none;
  error = none;
  metadata = none;
  created_at = 10;
  started_at = none;
  completed_at = some 20;
}

abbrev closed : Missions
closed = record { store = ("msn1", ended) ∷ []; events = []; calls = [] }

abbrev late_ports : Ports
late_ports = ports RunStatusLike.completed PolicyEffectLike.allow

abbrev late_event : WorkflowFinishedEvent
late_event = record { run_id = "run1"; mission_id = some "msn1"; error = none }

terminal_stays_example :
    get
      (tick late_ports quiet 40 (interrupt late_ports closed (finishing late_event 30))).0.store
      "msn1"
    ≡ some ended
unfolding get
terminal_stays_example =
    terminal_stays late_ports "msn1" ended refl
      (step (interrupts (finishing late_event 30)) (step (ticks quiet 40) stays))
      (record { keyed = (refl, tt); distinct = (refl, tt) }) refl

abbrev fresh : Mission
fresh = record ended { status = MissionStatus.created; completed_at = none }

abbrev waiting_ports : Ports
waiting_ports = ports RunStatusLike.suspended PolicyEffectLike.allow

start_overwrites_cancel_example :
    let (after, m) =
      execute waiting_ports
        (record { planning = []; starting = cancelling "msn1" 30 ∷ [] })
        20
        nothing
        fresh in
    (m.status ≡ MissionStatus.running)
    × (get after.store "msn1" ≡ some m)
    × (after.calls ≡ starts "payroll" "msn1" ∷ [])
start_overwrites_cancel_example =
    start_overwrites_cancel waiting_ports 20 30 nothing fresh (runner RunStatusLike.suspended) plan
      (handle RunStatusLike.suspended) refl refl refl refl refl

completed_twice_example :
    let (after, m) =
      execute late_ports
        (record { planning = []; starting = finishing late_event 30 ∷ [] })
        20
        nothing
        fresh in
    after.events
    ≡ []
      ++ event_of MissionEventType.mission_planned (as_planned (as_planning fresh 20) plan)
        ∷ event_of MissionEventType.mission_started
            (as_running (as_planned (as_planning fresh 20) plan))
        ∷ event_of MissionEventType.mission_completed m
        ∷ event_of MissionEventType.mission_completed m
        ∷ []
completed_twice_example =
    completed_twice late_ports 20 30 nothing fresh (runner RunStatusLike.completed) plan
      (handle RunStatusLike.completed) refl refl refl refl refl refl refl
