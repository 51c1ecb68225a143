-- ===== src/Workflow/Rounds/SameRun.antt =====
-- packages/workflow-engine/src/executor.ts: settling leaves a run's id and status alone.
use ryvan_os.Workflow.Environment.{Live, Env}
use ryvan_os.Workflow.Rounds.{
  complete_waiting, fail_waiting, on_verdict, settle_kind, settle_in, settle_waiting_steps,
  settle_step,
}
use ryvan_os.Base.Map.{get}
use ryvan_os.Workflow.Transitions.{
  complete_step, fail_step, is_waiting, fail_step, skip_dependents, skip_one, skip_pass, skip_queue,
}
use ryvan_os.Workflow.Types.{
  StepKind, StepState, ApprovalGateStatus, WorkflowDefinition, StepDefinition, WorkflowRun,
}
use ryvan_os.Base.{
  ℕ, zero, suc, String, ◌≡◌, refl, ◌∙◌, inl, inr, List, [], ◌∷◌, ◌++◌, arith, or_default, if_both,
  option_both, Option-cases,
}

skip_pass-id :
    (steps : List StepDefinition) (current : String) (now : ℕ) (run : WorkflowRun)
    → ((skip_pass steps current now run).0.id ≡ run.id)
      × ((skip_pass steps current now run).0.status ≡ run.status)
unfolding skip_pass skip_one
skip_pass-id [] current now run = (refl, refl)
skip_pass-id (step ∷ steps) current now run =
    let rest = skip_pass-id steps current now (or_default (skip_one step current now run) run) in
    ground (arith, rest)

skip_queue-id :
    (fuel : ℕ) (steps : List StepDefinition) (queue : List String) (now : ℕ) (run : WorkflowRun)
    → let r = (or_default (skip_queue fuel steps queue now run) (run, [])).0 in
      (r.id ≡ run.id) × (r.status ≡ run.status)
unfolding skip_queue
skip_queue-id zero steps queue now run = (refl, refl)
skip_queue-id (suc fuel) steps [] now run = (refl, refl)
skip_queue-id (suc fuel) steps (current ∷ queue) now run =
    let pass = skip_pass-id steps current now run in
    let (run', ids) = skip_pass steps current now run in
    let rest = skip_queue-id fuel steps (queue ++ ids) now run' in
    elim (Option-cases (skip_queue fuel steps (queue ++ ids) now run')) [
      | inl n ↦ rw n (refl, refl)
      | inr (r, e) ↦ let k = rw e at rest in rw e (k.0 ∙ pass.0, k.1 ∙ pass.1)
    ]

abbrev pub SameRun : WorkflowRun → WorkflowRun → Type 0
SameRun run first = (run.id ≡ first.id) × (run.status ≡ first.status)

skip_dependents-SameRun :
    (run : WorkflowRun) (definition : WorkflowDefinition) (id : String) (now : ℕ)
    → SameRun (skip_dependents run definition id now).0 run
unfolding skip_dependents
skip_dependents-SameRun run definition id now = skip_queue-id _ definition.steps (id ∷ []) now run

module _ (env : Env) (definition : WorkflowDefinition) (step : StepDefinition) (live : Live) where
  abbrev Same : Live → Type 0
  Same r = SameRun r.run live.run

  unchanged : Same live
  unchanged = (refl, refl)

  fail_step-Same :
      (message : String) (state : StepState)
      → SameRun (fail_step live.run step.id state message env.now) live.run
  unfolding fail_step
  fail_step-Same message state = (refl, refl)

  fail_waiting-Same :
      (message : String) (state : StepState)
      → Same (fail_waiting env definition step message state live)
  unfolding fail_waiting
  fail_waiting-Same message state =
      let failed = fail_step-Same message state in
      let skipped =
        skip_dependents-SameRun (fail_step live.run step.id state message env.now) definition
          step.id env.now in
      if_both Same step.continue_on_error (skipped.0 ∙ failed.0, skipped.1 ∙ failed.1) failed

  complete_waiting-Same :
      (output : String) (state : StepState)
      → Same (complete_waiting env definition step output state live)
  unfolding complete_waiting complete_step
  complete_waiting-Same output state = (refl, refl)

  on_verdict-Same :
      (verdict : ApprovalGateStatus) (state : StepState)
      → Same (on_verdict env definition step verdict state live)
  unfolding on_verdict
  on_verdict-Same ApprovalGateStatus.granted state = complete_waiting-Same _ state
  on_verdict-Same ApprovalGateStatus.denied state = fail_waiting-Same _ state
  on_verdict-Same ApprovalGateStatus.expired state = fail_waiting-Same _ state
  on_verdict-Same ApprovalGateStatus.pending state = unchanged

  settle_kind-Same :
      (kind : StepKind) (state : StepState) → Same (settle_kind env definition step kind state live)
  unfolding settle_kind
  settle_kind-Same StepKind.approval state =
      option_both Same state.approval_id unchanged
        (λ id _. if_both Same _ (on_verdict-Same (env.check id) state) unchanged)
  settle_kind-Same StepKind.schedule state =
      if_both Same _ (complete_waiting-Same _ state) unchanged
  settle_kind-Same StepKind.event state = if_both Same _ (fail_waiting-Same _ state) unchanged
  settle_kind-Same StepKind.action state = (refl, refl)
  settle_kind-Same StepKind.conditional state = (refl, refl)
  settle_kind-Same StepKind.unknown state = (refl, refl)

  settle_step-SameRun : Same (settle_step env definition step live)
  unfolding settle_step
  settle_step-SameRun = option_both Same (get live.run.steps step.id) unchanged (λ state _.
      if_both Same (is_waiting state.status) (settle_kind-Same step.kind state) unchanged)

settle_in-SameRun :
    (env : Env) (definition : WorkflowDefinition) (steps : List StepDefinition) (live : Live)
    → SameRun (settle_in env definition steps live).run live.run
unfolding settle_in
settle_in-SameRun env definition [] live = (refl, refl)
settle_in-SameRun env definition (step ∷ steps) live =
    let first = settle_step-SameRun env definition step live in
    let rest = settle_in-SameRun env definition steps (settle_step env definition step live) in
    (rest.0 ∙ first.0, rest.1 ∙ first.1)

pub settle_waiting_steps-SameRun :
    (env : Env) (definition : WorkflowDefinition) (live : Live)
    → SameRun (settle_waiting_steps env definition live).run live.run
unfolding settle_waiting_steps
settle_waiting_steps-SameRun env definition live =
    settle_in-SameRun env definition definition.steps live
