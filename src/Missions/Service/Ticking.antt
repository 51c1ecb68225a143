-- ===== src/Missions/Service/Ticking.antt =====
-- packages/mission-engine/src/mission-service.ts: what a tick starts.
use ryvan_os.Missions.Store.Keeping.{Member-list_missions, IsStore}
use ryvan_os.Missions.Types.{
  RunStatusLike, status_eq, Mission, MissionStatus, PolicyGate, WorkflowRunner, MissionPlan,
  WorkflowRunHandle, ApprovalAnswer,
}
use ryvan_os.Missions.State.{
  mission_of, finishing, is_terminal, cancelling, Interruption, on_workflow_finished, settle_as,
  cancel, interrupt, asks_cancel, cancels, RunnerCall, Missions, Ports, Meanwhile, starts,
  interrupt_all,
}
use ryvan_os.Missions.Service.{
  awaiting_only, as_planning, plan_made, with_run, run_started, recheck, execute, recheck_all,
  answered, tick,
}
use ryvan_os.Base.Map.{get}
use ryvan_os.Base.{
  ℕ, String, ◌≡◌, refl, sym, ◌∙◌, subst, inl, inr, true, Option, some, List, [], ◌∷◌, arith,
  is_empty, All-of_members, is_some, option_case, if_both, option_both, Option-cases, Member, All,
  All-append, Outcome, returned, threw,
}

-- A call that starts the mission is one of `Q` once its approval is granted.
abbrev MayStart : (RunnerCall → Type 0) → PolicyGate → Mission → Type 0
MayStart Q gate v =
    (i : String)
    → v.approval_id ≡ some i
    → gate.check_approval i ≡ returned ApprovalAnswer.granted
    → (w : String) → Q (starts w v.id)

module _ (ports : Ports) (Q : RunnerCall → Type 0) (may_cancel : (r : String) → Q (cancels r)) where
  settle-Calls :
      (st : RunStatusLike) (s : Missions) (v : Mission) (handle : WorkflowRunHandle) (now : ℕ)
      → All Q s.calls
      → All Q (settle_as st s v handle now).0.calls
  settle-Calls RunStatusLike.completed s v handle now a = a
  settle-Calls RunStatusLike.failed s v handle now a = a
  settle-Calls RunStatusLike.compensated s v handle now a = a
  settle-Calls RunStatusLike.cancelled s v handle now a = a
  settle-Calls RunStatusLike.pending s v handle now a = a
  settle-Calls RunStatusLike.running s v handle now a = a
  settle-Calls RunStatusLike.suspended s v handle now a = a
  settle-Calls RunStatusLike.compensating s v handle now a = a

  asks_cancel-Calls : (v : Mission) → All Q (asks_cancel ports v)
  asks_cancel-Calls v =
      if_both (All Q) (is_some ports.workflows)
        (option_both (All Q) v.run_id tt
          (λ r e. if_both (All Q) (is_empty r) tt (may_cancel r, tt)))
        tt

  interrupt-Calls :
      (s : Missions) (i : Interruption) → All Q s.calls → All Q (interrupt ports s i).calls
  unfolding interrupt cancel on_workflow_finished
  interrupt-Calls s (cancelling id now) a = elim (Option-cases (get s.store id)) [
    | inl unknown ↦ rw unknown a
    | inr (v, found) ↦ rw found (
        if_both (λ (r : Missions × Mission). All Q r.0.calls) (is_terminal v.status) a
          (All-append Q s.calls _ a (asks_cancel-Calls v)))
  ]
  interrupt-Calls s (finishing event now) a =
      if_both (λ (t : Missions). All Q t.calls) (is_empty event.run_id) a
        (option_both (λ (t : Missions). All Q t.calls) (mission_of s event) a
          (λ v e.
            if_both (λ (t : Missions). All Q t.calls) (is_terminal v.status) a
              (option_both (λ (t : Missions). All Q t.calls) ports.workflows a
                (λ runner q.
                  option_both (λ (t : Missions). All Q t.calls) (runner.get event.run_id) a
                    (λ handle r. settle-Calls handle.status s v handle now a)))))

  interrupt_all-Calls :
      (is : List Interruption) (s : Missions)
      → All Q s.calls
      → All Q (interrupt_all ports is s).calls
  unfolding interrupt_all
  interrupt_all-Calls [] s a = a
  interrupt_all-Calls (i ∷ is) s a =
      interrupt_all-Calls is (interrupt ports s i) (interrupt-Calls s i a)

  module _ (meanwhile : Meanwhile) (now : ℕ) where
    execute-Calls :
        (s : Missions) (v : Mission)
        → ((w : String) → Q (starts w v.id))
        → All Q s.calls
        → All Q (execute ports meanwhile now s v).0.calls
    unfolding execute
    execute-Calls s v may_start a =
        option_both (λ (r : Missions × Mission). All Q r.0.calls) ports.workflows a
          (λ runner q.
            planned (ports.planner (as_planning v now)) runner _
              (interrupt_all-Calls meanwhile.planning _ a))
      where
        started :
            (o : Outcome WorkflowRunHandle) (t : Missions) (w : Mission)
            → All Q t.calls
            → All Q (run_started ports meanwhile now t w o).0.calls
        started (threw x) t w b = b
        started (returned handle) t w b =
            settle-Calls handle.status _ (with_run w handle) handle now b

        planned :
            (o : Outcome MissionPlan) (runner : WorkflowRunner) (t : Missions)
            → All Q t.calls
            → All Q (plan_made ports meanwhile now runner t (as_planning v now) o).0.calls
        planned (threw x) runner t b = b
        planned (returned plan) runner t b = started (runner.start plan _) _ _ (
            interrupt_all-Calls meanwhile.starting _
              (All-append Q t.calls _ b (may_start plan.workflow_id, tt)))

    answered-Calls :
        (s : Missions) (v : Mission) (o : Outcome ApprovalAnswer)
        → (o ≡ returned ApprovalAnswer.granted → (w : String) → Q (starts w v.id))
        → All Q s.calls
        → All Q (answered ports meanwhile now s v o).0.calls
    unfolding answered
    answered-Calls s v (threw x) may_start a = a
    answered-Calls s v (returned ApprovalAnswer.pending) may_start a = a
    answered-Calls s v (returned ApprovalAnswer.granted) may_start a =
        execute-Calls s v (may_start refl) a
    answered-Calls s v (returned ApprovalAnswer.denied) may_start a = a
    answered-Calls s v (returned ApprovalAnswer.expired) may_start a = a

    recheck_all-Calls :
        (gate : PolicyGate) (vs : List Mission) (s : Missions)
        → All (MayStart Q gate) vs
        → All Q s.calls
        → All Q (recheck_all ports meanwhile now gate vs s).0.calls
    unfolding recheck_all recheck
    recheck_all-Calls gate [] s h a = a
    recheck_all-Calls gate (v ∷ vs) s h a = recheck_all-Calls gate vs _ h.1 (
        option_both (λ (r : Missions × List Mission). All Q r.0.calls) v.approval_id a
          (λ i e.
            if_both (λ (r : Missions × List Mission). All Q r.0.calls) (is_empty i) a
              (answered-Calls s v (gate.check_approval i) (h.0 i e) a)))

-- A start that a tick is entitled to.
pub data Granted (gate : PolicyGate) (s : Missions) : RunnerCall → Type 0 where
  cancel_granted : {r : String} → Granted gate s (cancels r)
  before : {c : RunnerCall} → Member c s.calls → Granted gate s c
  start_granted :
      {w i : String} {v : Mission}
      → get s.store v.id ≡ some v
      → status_eq v.status MissionStatus.awaiting_approval ≡ true
      → v.approval_id ≡ some i
      → gate.check_approval i ≡ returned ApprovalAnswer.granted
      → Granted gate s (starts w v.id)

-- When the missions are stored under their ids, every workflow run that a tick starts is that of a
-- stored mission which awaited an approval that the policy gate says is granted.
pub tick_gated :
    (ports : Ports) (meanwhile : Meanwhile) (now : ℕ) (s : Missions) (gate : PolicyGate)
    → IsStore s.store
    → ports.policy ≡ some gate
    → All (Granted gate s) (tick ports meanwhile now s).0.calls
unfolding tick
tick_gated ports meanwhile now s gate h gated =
    let allowed : All (Granted gate s) s.calls = All-of_members s.calls (λ c i. before i) in
    option_both (λ (r : Missions × List Mission). All (Granted gate s) r.0.calls) ports.policy
      allowed
      (λ g q.
        let same : some g ≡ some gate = sym q ∙ gated in
        recheck_all-Calls ports (Granted gate s) (λ r. cancel_granted) meanwhile now g _ s
          (All-of_members {P = MayStart (Granted gate s) g} _ (λ v i a e granted w.
            let (stored, passes) = Member-list_missions s.store awaiting_only h i in
            start_granted stored (ground arith) e (
              subst
                (λ (o : Option PolicyGate).
                  option_case o (threw "") (λ x. x.check_approval a)
                  ≡ returned ApprovalAnswer.granted)
                same granted)))
          allowed)
