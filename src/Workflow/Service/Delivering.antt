-- ===== src/Workflow/Service/Delivering.antt =====
-- packages/workflow-engine/src/executor.ts, `notifyEvent`, and the check of workflow-service.ts
-- before it.
use ryvan_os.Workflow.Environment.{Live, emit_step, step_completed}
use ryvan_os.Workflow.Execution.{with_run}
use ryvan_os.Workflow.Transitions.{next_sequence}
use ryvan_os.Base.{
  ℕ, String, ◌≡◌, refl, ◌∙◌, subst, inl, inr, Bool, true, false, ◌&&◌, Option, none, some, List, [],
  ◌∷◌, arith, eq_iff, ◌==◌, if◌then◌else◌, Bool-cases, Option-cases, any,
}
use ryvan_os.Base.Map.{get-set, get}
use ryvan_os.Workflow.Types.{Json, StepStatus, StepDefinition, StepState}
use ryvan_os.Workflow.Transitions.{is_waiting, state_is, complete_step}
use ryvan_os.Workflow.Environment.{Live}
use ryvan_os.Workflow.Executor.{awaits, deliver}

abbrev pub awaited_at : String → String → StepDefinition → Bool
awaited_at type id step = step.id == id && awaits step type

-- The state of a step after an event: of one that waits for it, or of another.
abbrev pub Delivered : Json → Bool → Option StepState → Option StepState → Type 0
Delivered payload true before after =
    (s : StepState) × (after ≡ some s)
    × (s.status ≡ StepStatus.completed)
    × (s.output ≡ some payload)
Delivered payload false before after = after ≡ before

module _ (type : String) (payload : Json) (now : ℕ) where
  abbrev after_deliver : List StepDefinition → Live → String → Option StepState
  after_deliver steps live id = get (deliver steps type payload now live).0.run.steps id

  abbrev awaits_at : List StepDefinition → Live → String → Bool
  awaits_at steps live id =
      state_is is_waiting (get live.run.steps id) && any (awaited_at type id) steps

  abbrev completed : StepDefinition → StepState → Live → Live
  completed step state live =
      emit_step step_completed step.id
        (with_run live (complete_step live.run step.id state payload now))

  deliver_passes :
      (step : StepDefinition) (steps : List StepDefinition) (live : Live)
      → (state_is is_waiting (get live.run.steps step.id) && awaits step type) ≡ false
      → deliver (step ∷ steps) type payload now live ≡ deliver steps type payload now live
  unfolding deliver
  deliver_passes step steps live h = ground arith

  deliver_hits :
      (step : StepDefinition) (steps : List StepDefinition) (live : Live) (state : StepState)
      → get live.run.steps step.id ≡ some state
      → (is_waiting state.status && awaits step type) ≡ true
      → deliver (step ∷ steps) type payload now live
        ≡ ((deliver steps type payload now (completed step state live)).0, true)
  unfolding deliver
  deliver_hits step steps live state e h = rw (e, h) refl

  abbrev completed_state : StepState → Live → StepState
  completed_state state live = record state {
    status = StepStatus.completed;
    output = some payload;
    completed_at = some now;
    sequence = some (next_sequence live.run);
    resume_at = none;
  }

  completed-get :
      (step : StepDefinition) (state : StepState) (live : Live) (id : String)
      → get (completed step state live).run.steps id
        ≡ (if step.id == id then some (completed_state state live) else get live.run.steps id)
  unfolding complete_step
  completed-get step state live id = get-set live.run.steps step.id id (completed_state state live)

  after_hit :
      (step : StepDefinition) (steps : List StepDefinition) (live : Live) (state : StepState)
      (id : String) (after : Option StepState)
      → get live.run.steps step.id ≡ some state
      → (is_waiting state.status && awaits step type) ≡ true
      → Delivered payload
          (awaits_at steps (completed step state live) id)
          (get (completed step state live).run.steps id)
          after
      → Delivered payload (awaits_at (step ∷ steps) live id) (get live.run.steps id) after
  after_hit step steps live state id after found h ih = elim (Bool-cases (step.id == id)) [
    | inl e ↦
        let same : step.id ≡ id = (eq_iff step.id id).0 e in
        let here_found : get live.run.steps id ≡ some state =
          subst (λ j. get live.run.steps j ≡ some state) same found in
        let now_completed : get (completed step state live).run.steps id
            ≡ some (completed_state state live) =
          completed-get step state live id ∙ rw e refl in
        let waits : awaits_at (step ∷ steps) live id ≡ true = ground arith in
        rw waits (completed_state state live, rw now_completed at ih, refl, refl)
    | inr e ↦
        let kept : get (completed step state live).run.steps id ≡ get live.run.steps id =
          completed-get step state live id ∙ rw e refl in
        let now_awaits : awaits_at (step ∷ steps) live id ≡ awaits_at steps live id =
          ground arith in
        rw now_awaits (rw kept at ih)
  ]

  passed_over :
      (step : StepDefinition) (steps : List StepDefinition) (live : Live) (id : String)
      → (state_is is_waiting (get live.run.steps step.id) && awaits step type) ≡ false
      → awaits_at (step ∷ steps) live id ≡ awaits_at steps live id
  passed_over step steps live id h = elim (Bool-cases (step.id == id)) [
    | inr e ↦ ground arith
    | inl e ↦
        let same : step.id ≡ id = (eq_iff step.id id).0 e in
        let h' : (state_is is_waiting (get live.run.steps id) && awaits step type) ≡ false =
          subst (λ j. (state_is is_waiting (get live.run.steps j) && awaits step type) ≡ false) same
            h in
        ground arith
  ]

  and-false : (b : Bool) → (b && false) ≡ false
  and-false true = refl
  and-false false = refl

  deliver_none : (live : Live) → (deliver [] type payload now live).0 ≡ live
  unfolding deliver
  deliver_none live = refl

  -- An event completes, with its payload, exactly the waiting steps of the definition that wait for
  -- its type, and leaves the state of every other step as it was.
  pub deliver_lem :
      (steps : List StepDefinition) (live : Live) (id : String)
      → Delivered payload
          (awaits_at steps live id)
          (get live.run.steps id)
          (after_deliver steps live id)
  deliver_lem [] live id =
      rw (and-false (state_is is_waiting (get live.run.steps id)), deliver_none live) refl
  deliver_lem (step ∷ steps) live id =
      elim (Bool-cases (state_is is_waiting (get live.run.steps step.id) && awaits step type)) [
        | inr h ↦
            rw (passed_over step steps live id h, deliver_passes step steps live h)
              (deliver_lem steps live id)
        | inl h ↦ elim (Option-cases (get live.run.steps step.id)) [
          | inl gone ↦ let bad = rw gone at h in cc
          | inr (state, found) ↦ rw (deliver_hits step steps live state found (ground arith)) (
              after_hit step steps live state id _ found (ground arith)
                (deliver_lem steps (completed step state live) id))
        ]
      ]
