-- ===== src/Workflow/Driver/Reversing.antt =====
-- packages/workflow-engine/src/executor.ts, `failRun`: which steps are undone.
use ryvan_os.Workflow.Driver.Sequence.{to_compensate_lem}
use ryvan_os.Workflow.Environment.{Env}
use ryvan_os.Base.Map.{values}
use ryvan_os.Workflow.Types.{Json, StepState, WorkflowDefinition, WorkflowRun}
use ryvan_os.Workflow.Driver.{
  step_of, is_completed, StepDefinition, StepStatus, compensates, undone, to_compensate,
}
use ryvan_os.Base.{
  ℕ, String, ◌≡◌, refl, ◌⊎◌, inl, inr, true, false, some, arith, is_empty, Option-cases, Member,
  Outcome, returned, threw,
}

-- A step that is to be undone and that can be: the run holds it as completed, its definition
-- names a compensation, which is registered, and the compensation returns.
pub record Reversed (env : Env) (definition : WorkflowDefinition) (run : WorkflowRun)
    (s : StepState) : Type 0 where
  pub held : Member s (values run.steps)
  pub was_completed : s.status ≡ StepStatus.completed
  pub compensation :
      (step : StepDefinition) × (name : String) × (call : String → ℕ → Outcome Json) × (v : Json)
      × (step_of definition.steps s.id ≡ some step)
      × (step.compensate ≡ some name)
      × (is_empty name ≡ false)
      × (env.handler name ≡ some call)
      × (call s.id 1 ≡ returned v)

is_completed-only :
    (status : StepStatus) → is_completed status ≡ true → status ≡ StepStatus.completed
is_completed-only StepStatus.pending h = cc
is_completed-only StepStatus.running h = cc
is_completed-only StepStatus.completed h = refl
is_completed-only StepStatus.failed h = cc
is_completed-only StepStatus.skipped h = cc
is_completed-only StepStatus.waiting h = cc
is_completed-only StepStatus.compensated h = cc

pub contradicts : false ≡ true → ⊥
contradicts h = cc

Outcome-cases :
    (o : Outcome Json) → ((v : Json) × (o ≡ returned v)) ⊎ ((e : String) × (o ≡ threw e))
Outcome-cases (returned v) = inl (v, refl)
Outcome-cases (threw e) = inr (e, refl)

compensates_lem :
    (definition : WorkflowDefinition) (s : StepState) (step : StepDefinition) (name : String)
    → compensates definition s ≡ true
    → step_of definition.steps s.id ≡ some step
    → step.compensate ≡ some name
    → (is_completed s.status ≡ true) × (is_empty name ≡ false)
compensates_lem definition s step name h e c =
    let both = rw (e, c) at h in (ground (arith, both), ground (arith, both))

module _ (env : Env) (definition : WorkflowDefinition) where
  pub Reversed-undone :
      (run : WorkflowRun) (s : StepState)
      → Reversed env definition run s
      → (compensates definition s ≡ true) × (undone env definition s ≡ true)
  unfolding undone
  Reversed-undone run s r =
      let (step, name, f, v, e, c, n, h, q) = r.compensation in
      (rw (r.was_completed, e, c, n) refl, rw (e, c, h, q) refl)

  pub undone-Reversed :
      (run : WorkflowRun) (s : StepState)
      → Member s (to_compensate run definition)
      → undone env definition s ≡ true
      → Reversed env definition run s
  unfolding undone
  undone-Reversed run s m u =
      let (held, named) = ((to_compensate_lem run definition).1 s).0 m in
      elim (Option-cases (step_of definition.steps s.id)) [
        | inl none_such ↦ elim (contradicts (rw none_such at u)) [ ]
        | inr (step, e) ↦ elim (Option-cases step.compensate) [
          | inl unnamed ↦ elim (contradicts (rw (e, unnamed) at u)) [ ]
          | inr (name, c) ↦ elim (Option-cases (env.handler name)) [
            | inl unknown ↦ elim (contradicts (rw (e, c, unknown) at u)) [ ]
            | inr (f, h) ↦ elim (Outcome-cases (f s.id 1)) [
              | inr (err, q) ↦ elim (contradicts (rw (e, c, h, q) at u)) [ ]
              | inl (v, q) ↦ record {
                held = held;
                was_completed =
                    is_completed-only s.status (compensates_lem definition s step name named e c).0;
                compensation = (
                  step,
                  name,
                  f,
                  v,
                  e,
                  c,
                  (compensates_lem definition s step name named e c).1,
                  h,
                  q,
                );
              }
            ]
          ]
        ]
      ]
