-- ===== src/Missions/State/Ending.antt =====
-- packages/mission-engine/src/mission-service.ts: a mission that has ended stays as it is.
use ryvan_os.Missions.Types.{Mission, RunStatusLike, WorkflowRunHandle}
use ryvan_os.Missions.Store.Keeping.{Member-list_missions, stored_id, IsStore, save-IsStore}
use ryvan_os.Missions.State.{
  first_mission, state_after, finishing, finish, mission_of, on_workflow_finished, cancel,
  WorkflowFinishedEvent, mission_by_run, cancelling, Missions, Ports, MissionEventType,
  save_and_emit, save_only, settle_as, Interruption, interrupt, as_cancelled, as_failed,
  as_completed, is_terminal, interrupt_all,
}
use ryvan_os.Missions.Store.{no_filter}
use ryvan_os.Base.Map.{get, get-set}
use ryvan_os.Base.{
  ℕ, String, ◌≡◌, sym, ap, ◌∙◌, subst, inl, inr, true, false, some, List, [], ◌∷◌, arith, eq_iff,
  ◌==◌, is_empty, if_both, option_both, Bool-cases, Option-cases, Member, here,
}

module _ (ports : Ports) (id : String) (m : Mission) (over : is_terminal m.status ≡ true) where
  pub record Ended (s : Missions) : Type 0 where
    pub store : IsStore s.store
    pub stored : get s.store id ≡ some m

  pub save-Ended :
      (s : Missions) (v : Mission) → (v.id == id) ≡ false → Ended s → Ended (save_only s v)
  save-Ended s v other e = record {
    store = save-IsStore s.store v e.store;
    stored = ground (arith, get-set s.store v.id id v, e.stored);
  }

  pub save_and_emit-Ended :
      (s : Missions) (v : Mission) (type : MissionEventType)
      → (v.id == id) ≡ false
      → Ended s
      → Ended (save_and_emit s v type)
  save_and_emit-Ended s v type other e =
      let saved = save-Ended s v other e in record { store = saved.store; stored = saved.stored }

  pub settle-Ended :
      (st : RunStatusLike) (s : Missions) (v : Mission) (handle : WorkflowRunHandle) (now : ℕ)
      → (v.id == id) ≡ false
      → Ended s
      → Ended (settle_as st s v handle now).0
  settle-Ended RunStatusLike.completed s v handle now other e =
      save_and_emit-Ended s (as_completed v handle now) _ other e
  settle-Ended RunStatusLike.failed s v handle now other e =
      save_and_emit-Ended s (as_failed v _ now) _ other e
  settle-Ended RunStatusLike.compensated s v handle now other e =
      save_and_emit-Ended s (as_failed v _ now) _ other e
  settle-Ended RunStatusLike.cancelled s v handle now other e =
      save_and_emit-Ended s (as_cancelled v now) _ other e
  settle-Ended RunStatusLike.pending s v handle now other e = e
  settle-Ended RunStatusLike.running s v handle now other e = e
  settle-Ended RunStatusLike.suspended s v handle now other e = e
  settle-Ended RunStatusLike.compensating s v handle now other e = e

  -- A stored mission that has not ended is another one.
  pub other_id :
      (s : Missions) {v : Mission}
      → Ended s
      → get s.store v.id ≡ some v
      → is_terminal v.status ≡ false
      → (v.id == id) ≡ false
  other_id s {v} e found going = elim (Bool-cases (v.id == id)) [
    | inr no_same ↦ no_same
    | inl same ↦
        let at_id : v.id ≡ id = ground (arith, eq_iff v.id id) in
        let both : some v ≡ some m = sym found ∙ ap (get s.store) at_id ∙ e.stored in cc
  ]

  pub cancel-Ended :
      (s : Missions) (mission_id : String) (now : ℕ)
      → Ended s
      → Ended (state_after s (cancel ports s mission_id now))
  unfolding cancel
  cancel-Ended s mission_id now e = elim (Option-cases (get s.store mission_id)) [
    | inl unknown ↦ rw unknown e
    | inr (v, found) ↦ elim (Bool-cases (is_terminal v.status)) [
      | inl ended ↦ rw (found, ended) e
      | inr going ↦
          let at_id = stored_id s.store mission_id e.store.keyed found in
          let other = other_id s e (ap (get s.store) at_id ∙ found) going in
          let saved = save-Ended s (as_cancelled v now) other e in
          rw (found, going) (record { store = saved.store; stored = saved.stored })
    ]
  ]

  pub first_mission-Member :
      (xs : List Mission) {v : Mission} → first_mission xs ≡ some v → Member v xs
  first_mission-Member [] h = cc
  first_mission-Member (x ∷ xs) {v} h =
      let same : x ≡ v = ground arith in subst (λ y. Member y (x ∷ xs)) same here

  pub by_run-stored :
      (s : Missions) (run_id : String) {v : Mission}
      → IsStore s.store
      → mission_by_run s run_id ≡ some v
      → get s.store v.id ≡ some v
  by_run-stored s run_id h q =
      (Member-list_missions s.store (record no_filter { run_id = some run_id }) h
        (first_mission-Member _ q)).0

  pub mission_of-stored :
      (s : Missions) (event : WorkflowFinishedEvent) {v : Mission}
      → IsStore s.store
      → mission_of s event ≡ some v
      → get s.store v.id ≡ some v
  mission_of-stored s event {v} h q = elim (Option-cases event.mission_id) [
    | inl unnamed ↦ by_run-stored s event.run_id h (rw unnamed at q)
    | inr (i, named) ↦ elim (Bool-cases (is_empty i)) [
      | inl blank ↦ by_run-stored s event.run_id h (rw (named, blank) at q)
      | inr full ↦
          let found : get s.store i ≡ some v = rw (named, full) at q in
          ap (get s.store) (stored_id s.store i h.keyed found) ∙ found
    ]
  ]

  pub finish-Ended :
      (s : Missions) (event : WorkflowFinishedEvent) (now : ℕ) (v : Mission)
      → (v.id == id) ≡ false
      → Ended s
      → Ended (finish ports s event now v)
  finish-Ended s event now v other e =
      option_both Ended ports.workflows
        (save_and_emit-Ended s (as_failed v _ now) MissionEventType.mission_failed other e)
        (λ runner q.
          option_both Ended (runner.get event.run_id) e
            (λ handle r. settle-Ended handle.status s v handle now other e))

  pub finished-Ended :
      (s : Missions) (event : WorkflowFinishedEvent) (now : ℕ)
      → Ended s
      → Ended (on_workflow_finished ports s event now)
  unfolding on_workflow_finished
  finished-Ended s event now e = if_both Ended (is_empty event.run_id) e (
      option_both Ended (mission_of s event) e (λ v found.
        elim (Bool-cases (is_terminal v.status)) [
          | inl ended ↦ rw ended e
          | inr going ↦ rw going (
              finish-Ended s event now v
                (other_id s e (mission_of-stored s event e.store found) going) e)
        ]))

  pub interrupt-Ended : (s : Missions) (i : Interruption) → Ended s → Ended (interrupt ports s i)
  unfolding interrupt
  interrupt-Ended s (cancelling mission_id now) e = cancel-Ended s mission_id now e
  interrupt-Ended s (finishing event now) e = finished-Ended s event now e

  pub interrupt_all-Ended :
      (s : Missions) (is : List Interruption) → Ended s → Ended (interrupt_all ports is s)
  unfolding interrupt_all
  interrupt_all-Ended s [] e = e
  interrupt_all-Ended s (i ∷ is) e =
      interrupt_all-Ended (interrupt ports s i) is (interrupt-Ended s i e)
