-- ===== src/Missions/Service/Overwriting.antt =====
-- packages/mission-engine/src/mission-service.ts: calls that arrive while `execute` waits for the
-- start of the workflow run.
use ryvan_os.Missions.Types.{
  Mission, MissionStatus, MissionPlan, RunStatusLike, WorkflowRunHandle, WorkflowRunner,
}
use ryvan_os.Missions.State.{
  WorkflowFinishedEvent, Interruption, Missions, Ports, MissionEventType, Meanwhile, cancelling,
  finishing, interrupt, interrupt_all, cancel, on_workflow_finished, starts, event_of,
}
use ryvan_os.Missions.Service.{as_planning, as_planned, as_running, with_run, execute}
use ryvan_os.Base.Map.{get-set_same, get}
use ryvan_os.Base.{
  ℕ, ◌≡◌, refl, false, none, some, [], ◌∷◌, ◌++◌, append-nil, append_assoc, is_empty, returned,
}

abbrev while_starting : Interruption → Meanwhile
while_starting i = record { planning = []; starting = i ∷ [] }

module _ (ports : Ports) (now later : ℕ) (s : Missions) (v : Mission) (runner : WorkflowRunner)
    (plan : MissionPlan) (handle : WorkflowRunHandle) (runs : ports.workflows ≡ some runner)
    (planned : ports.planner (as_planning v now) ≡ returned plan)
    (handled : runner.start plan (as_running (as_planned (as_planning v now) plan))
      ≡ returned handle) where
  abbrev started : Mission
  started = with_run (as_running (as_planned (as_planning v now) plan)) handle

  -- When a mission without a run is planned and its run comes back suspended, a cancellation that
  -- arrives while the run is being started is lost: the workflow runner is not asked to cancel, and
  -- the mission is stored as running again.
  pub start_overwrites_cancel :
      handle.status ≡ RunStatusLike.suspended
      → v.run_id ≡ none
      → let (after, m) = execute ports (while_starting (cancelling v.id later)) now s v in
        (m.status ≡ MissionStatus.running)
        × (get after.store v.id ≡ some m)
        × (after.calls ≡ s.calls ++ starts plan.workflow_id v.id ∷ [])
  unfolding execute interrupt_all interrupt cancel
  start_overwrites_cancel waits unstarted =
      let planning = as_planning v now in
      let running = as_running (as_planned planning plan) in
      rw (runs, planned, handled, waits, get-set_same _ v.id running, unstarted)
        (refl, get-set_same _ v.id started, append-nil _)

  -- When a mission is planned and its run comes back completed, and the end of the run, which the
  -- workflow runner knows of, is reported before that, the mission is reported as completed twice.
  pub completed_twice :
      handle.status ≡ RunStatusLike.completed
      → runner.get handle.id ≡ some handle
      → is_empty handle.id ≡ false
      → is_empty v.id ≡ false
      → let event : WorkflowFinishedEvent = record {
        run_id = handle.id;
        mission_id = some v.id;
        error = none;
      } in
        let (after, m) = execute ports (while_starting (finishing event later)) now s v in
        after.events
        ≡ s.events
          ++ event_of MissionEventType.mission_planned (as_planned (as_planning v now) plan)
            ∷ event_of MissionEventType.mission_started started
            ∷ event_of MissionEventType.mission_completed m
            ∷ event_of MissionEventType.mission_completed m
            ∷ []
  unfolding execute interrupt_all interrupt on_workflow_finished
  completed_twice ended gets run_named named =
      let running = as_running (as_planned (as_planning v now) plan) in
      rw (runs, planned, handled, run_named, named, get-set_same _ v.id running, gets, ended)
        (simp append_assoc)
