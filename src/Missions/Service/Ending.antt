-- ===== src/Missions/Service/Ending.antt =====
-- packages/mission-engine/src/mission-service.ts: a mission that has ended.
use ryvan_os.Missions.Store.{list_missions}
use ryvan_os.Missions.State.Ending.{
  other_id, Ended, save-Ended, save_and_emit-Ended, settle-Ended, interrupt-Ended,
  interrupt_all-Ended,
}
use ryvan_os.Missions.Types.{
  status_eq, Mission, MissionPlan, WorkflowRunHandle, WorkflowRunner, PolicyGate, PolicyVerdict,
  PolicyEffectLike, ApprovalAnswer, LaunchMissionInput, MissionStatus,
}
use ryvan_os.Missions.Store.Keeping.{Member-list_missions, IsStore}
use ryvan_os.Missions.State.{
  Missions, Ports, MissionEventType, as_failed, is_terminal, Meanwhile, Interruption, interrupt,
}
use ryvan_os.Missions.Service.{
  awaiting_only, as_planning, as_planned, as_running, with_run, as_awaiting, run_started, plan_made,
  execute, verdict_given, enforced, new_mission, policy_checked, launch, answered, recheck,
  recheck_all, tick,
}
use ryvan_os.Base.Map.{get}
use ryvan_os.Base.{
  ℕ, String, ◌≡◌, refl, sym, ap, ◌∙◌, inl, inr, Bool, true, false, none, some, List, [], ◌∷◌, arith,
  eq_iff, ◌==◌, is_empty, All-of_members, if_both, option_both, Bool-cases, All, Result, Outcome,
  returned, threw,
}

-- What is done to a service. Ids of new missions are fresh.
pub data Step (ports : Ports) : Missions → Missions → Type 0 where
  launches :
      {s : Missions} (meanwhile : Meanwhile) (now : ℕ) (id correlation_id : String)
      (input : LaunchMissionInput)
      → get s.store id ≡ none
      → Step ports s (launch ports meanwhile now s id correlation_id input).0
  interrupts : {s : Missions} (i : Interruption) → Step ports s (interrupt ports s i)
  ticks :
      {s : Missions} (meanwhile : Meanwhile) (now : ℕ) → Step ports s (tick ports meanwhile now s).0

pub data Steps (ports : Ports) : Missions → Missions → Type 0 where
  stays : {s : Missions} → Steps ports s s
  step : {s t u : Missions} → Step ports s t → Steps ports t u → Steps ports s u

awaiting_going :
    (st : MissionStatus)
    → status_eq st MissionStatus.awaiting_approval ≡ true
    → is_terminal st ≡ false
awaiting_going MissionStatus.completed h = cc
awaiting_going MissionStatus.failed h = cc
awaiting_going MissionStatus.cancelled h = cc
awaiting_going MissionStatus.created h = refl
awaiting_going MissionStatus.awaiting_approval h = refl
awaiting_going MissionStatus.planning h = refl
awaiting_going MissionStatus.running h = refl
awaiting_going MissionStatus.verifying h = refl

module _ (ports : Ports) (id : String) (m : Mission) (over : is_terminal m.status ≡ true) where
  abbrev EndedHere : Missions → Type 0
  EndedHere = Ended ports id m over

  -- What a waiting call does to another mission.
  execute-Ended :
      (meanwhile : Meanwhile) (now : ℕ) (s : Missions) (v : Mission)
      → (v.id == id) ≡ false
      → EndedHere s
      → EndedHere (execute ports meanwhile now s v).0
  unfolding execute
  execute-Ended meanwhile now s v other e =
      option_both (λ (r : Missions × Mission). EndedHere r.0) ports.workflows
        (save_and_emit-Ended ports id m over s (as_failed v _ now) MissionEventType.mission_failed
          other e)
        (λ runner q.
          let saved = save-Ended ports id m over s (as_planning v now) other e in
          let waited = interrupt_all-Ended ports id m over _ meanwhile.planning saved in
          planned (ports.planner (as_planning v now)) runner _ waited)
    where
      started :
          (o : Outcome WorkflowRunHandle) (t : Missions) (w : Mission)
          → (w.id == id) ≡ false
          → EndedHere t
          → EndedHere (run_started ports meanwhile now t w o).0
      started (threw x) t w n f =
          save_and_emit-Ended ports id m over t (as_failed w _ now) MissionEventType.mission_failed
            n f
      started (returned handle) t w n f =
          settle-Ended ports id m over handle.status _ (with_run w handle) handle now n
            (save-Ended ports id m over t (with_run w handle) n f)

      planned :
          (o : Outcome MissionPlan) (runner : WorkflowRunner) (t : Missions)
          → EndedHere t
          → EndedHere (plan_made ports meanwhile now runner t (as_planning v now) o).0
      planned (threw x) runner t f =
          save_and_emit-Ended ports id m over t (as_failed (as_planning v now) _ now)
            MissionEventType.mission_failed other f
      planned (returned plan) runner t f =
          let p = as_planned (as_planning v now) plan in
          let told =
            save_and_emit-Ended ports id m over _ (as_running p) MissionEventType.mission_started
              other
              (save_and_emit-Ended ports id m over t p MissionEventType.mission_planned other f) in
          started (runner.start plan (as_running p)) _ (as_running p) other (
            interrupt_all-Ended ports id m over _ meanwhile.starting
              (record { store = told.store; stored = told.stored }))

  -- A mission whose id is not stored is another one.
  fresh_id : (s : Missions) (k : String) → EndedHere s → get s.store k ≡ none → (k == id) ≡ false
  fresh_id s k e unknown = elim (Bool-cases (k == id)) [
    | inr no_same ↦ no_same
    | inl same ↦
        let at_id : k ≡ id = ground (arith, eq_iff k id) in
        let both : none ≡ some m = sym unknown ∙ ap (get s.store) at_id ∙ e.stored in cc
  ]

  enforced-Ended :
      (meanwhile : Meanwhile) (now : ℕ) (s : Missions) (v : Mission) (o : Outcome PolicyVerdict)
      → (v.id == id) ≡ false
      → EndedHere s
      → EndedHere (enforced ports meanwhile now s v o).0
  enforced-Ended meanwhile now s v (threw x) other e = e
  enforced-Ended meanwhile now s v (returned verdict) other e = go verdict.effect
    where
      go : (f : PolicyEffectLike) → EndedHere (verdict_given ports meanwhile now f verdict s v).0
      go PolicyEffectLike.allow = e
      go PolicyEffectLike.deny =
          save_and_emit-Ended ports id m over s (as_failed v _ now) MissionEventType.mission_failed
            other e
      go PolicyEffectLike.require_approval =
          save_and_emit-Ended ports id m over s (as_awaiting v verdict)
            MissionEventType.mission_awaiting_approval other e

  checked-Ended :
      (meanwhile : Meanwhile) (now : ℕ) (v : Mission) (s : Missions) (o : Outcome Bool)
      → (v.id == id) ≡ false
      → EndedHere s
      → EndedHere (policy_checked ports meanwhile now v s o).0
  unfolding policy_checked
  checked-Ended meanwhile now v s (threw x) other e = e
  checked-Ended meanwhile now v s (returned false) other e = e
  checked-Ended meanwhile now v s (returned true) other e = execute-Ended meanwhile now s v other e

  launch-Ended :
      (meanwhile : Meanwhile) (now : ℕ) (s : Missions) (new correlation_id : String)
      (input : LaunchMissionInput)
      → get s.store new ≡ none
      → EndedHere s
      → EndedHere (launch ports meanwhile now s new correlation_id input).0
  unfolding launch
  launch-Ended meanwhile now s new correlation_id input unknown e =
      let v = new_mission ports meanwhile now new correlation_id input in
      let other = fresh_id s new e unknown in
      let told = save_and_emit-Ended ports id m over s v MissionEventType.mission_created other e in
      if_both (λ (r : Missions × Result Mission). EndedHere r.0) (is_empty input.type) e
        (checked-Ended meanwhile now v _ _ other (
          option_both (λ (r : Missions × Outcome Bool). EndedHere r.0) ports.policy told
            (λ gate q.
              enforced-Ended meanwhile now _ v (gate.enforce v input.estimated_cost_usd) other
                told)))

  answered-Ended :
      (meanwhile : Meanwhile) (now : ℕ) (s : Missions) (v : Mission) (o : Outcome ApprovalAnswer)
      → (v.id == id) ≡ false
      → EndedHere s
      → EndedHere (answered ports meanwhile now s v o).0
  unfolding answered
  answered-Ended meanwhile now s v (threw x) other e = e
  answered-Ended meanwhile now s v (returned ApprovalAnswer.pending) other e = e
  answered-Ended meanwhile now s v (returned ApprovalAnswer.granted) other e =
      execute-Ended meanwhile now s v other e
  answered-Ended meanwhile now s v (returned ApprovalAnswer.denied) other e =
      save_and_emit-Ended ports id m over s (as_failed v _ now) MissionEventType.mission_failed
        other e
  answered-Ended meanwhile now s v (returned ApprovalAnswer.expired) other e =
      save_and_emit-Ended ports id m over s (as_failed v _ now) MissionEventType.mission_failed
        other e

  recheck_all-Ended :
      (meanwhile : Meanwhile) (now : ℕ) (gate : PolicyGate) (vs : List Mission) (s : Missions)
      → All (λ (v : Mission). (v.id == id) ≡ false) vs
      → EndedHere s
      → EndedHere (recheck_all ports meanwhile now gate vs s).0
  unfolding recheck_all recheck
  recheck_all-Ended meanwhile now gate [] s a e = e
  recheck_all-Ended meanwhile now gate (v ∷ vs) s a e =
      recheck_all-Ended meanwhile now gate vs _ a.1 (
        option_both (λ (r : Missions × List Mission). EndedHere r.0) v.approval_id e
          (λ i q.
            if_both (λ (r : Missions × List Mission). EndedHere r.0) (is_empty i) e
              (answered-Ended meanwhile now s v (gate.check_approval i) a.0 e)))

  tick-Ended :
      (meanwhile : Meanwhile) (now : ℕ) (s : Missions)
      → EndedHere s
      → EndedHere (tick ports meanwhile now s).0
  unfolding tick
  tick-Ended meanwhile now s e =
      option_both (λ (r : Missions × List Mission). EndedHere r.0) ports.policy e
        (λ gate q. recheck_all-Ended meanwhile now gate _ s (others s e) e)
    where
      others :
          (s : Missions)
          → EndedHere s
          → All (λ (v : Mission). (v.id == id) ≡ false) (list_missions s.store awaiting_only)
      others s e = All-of_members _ (λ v i.
          let (stored, passes) = Member-list_missions s.store awaiting_only e.store i in
          other_id ports id m over s e stored (awaiting_going v.status (ground arith)))

  Step-Ended : {s t : Missions} → Step ports s t → EndedHere s → EndedHere t
  Step-Ended (launches {s} meanwhile now new correlation_id input unknown) e =
      launch-Ended meanwhile now s new correlation_id input unknown e
  Step-Ended (interrupts {s} i) e = interrupt-Ended ports id m over s i e
  Step-Ended (ticks {s} meanwhile now) e = tick-Ended meanwhile now s e

  -- Take a state of the service between two whole calls, in which a mission is stored as completed,
  -- failed or cancelled, every stored mission under its own id. It stays as it is through every call
  -- that begins after that, whatever is launched under new ids, cancelled, reported as finished,
  -- decided or ticked. A call that was already executing the mission when it ended is not one of
  -- these.
  pub terminal_stays :
      {s t : Missions}
      → Steps ports s t
      → IsStore s.store
      → get s.store id ≡ some m
      → get t.store id ≡ some m
  terminal_stays steps h found = (go steps (record { store = h; stored = found })).stored
    where
      go : {s t : Missions} → Steps ports s t → EndedHere s → EndedHere t
      go stays e = e
      go (step one more) e = go more (Step-Ended one e)
