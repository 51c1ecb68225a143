-- ===== src/Workflow/Executor/Ending.antt =====
-- packages/workflow-engine/src/executor.ts and registry.ts: `start` and `resume` over a registry.
use ryvan_os.Workflow.Environment.{Settles}
use ryvan_os.Workflow.Executor.{created_run, StartOptions, start, Drive, WorkflowExecutor, drive}
use ryvan_os.Workflow.Driver.Progressing.{drive_loop-ends, pending_in}
use ryvan_os.Workflow.Types.{RunStatus, StepState, WorkflowRun, StepDefinition}
use ryvan_os.Workflow.Environment.{of_run, workflow_started}
use ryvan_os.Workflow.Executor.{announce, store_run}
use ryvan_os.Base.{
  ℕ, ◌≤◌, ◌<◌, String, ◌≡◌, refl, subst, inl, inr, true, false, Option, some, List, [], ◌∷◌, arith,
  is_empty, is_some, option_case, Bool-cases, Option-cases, length, All, returns,
  is_some-option_case,
}
use ryvan_os.Base.Map.{Map, All-values-get, get, values, All-values-set}
use ryvan_os.Workflow.Types.{WorkflowDefinition}
use ryvan_os.Workflow.Validator.{validate_definition}
use ryvan_os.Workflow.Validator.Checked.{validate_definition-Distinct, >>-returns}
use ryvan_os.Workflow.Registry.{
  key, WorkflowRegistry, register, registered, find_definition, missing_handlers,
}

-- Every definition that is stored has passed validation.
abbrev pub IsRegistry : WorkflowRegistry → Type 0
IsRegistry registry = All (λ d. validate_definition d ≡ returns tt) (values registry.definitions)

abbrev pub empty_registry : WorkflowRegistry
empty_registry = record { definitions = []; latest = []; handlers = [] }

pub register-IsRegistry :
    (registry next : WorkflowRegistry) (definition : WorkflowDefinition)
    → IsRegistry registry
    → register registry definition ≡ returns next
    → IsRegistry next
unfolding register
register-IsRegistry registry next definition h e =
    let (valid, stored) = >>-returns (validate_definition definition) _ e in
    let (fresh, made) = >>-returns _ (returns (registered registry definition)) stored in
    let same : registered registry definition ≡ next = ground (arith, made) in
    subst IsRegistry same (
      All-values-set (λ d. validate_definition d ≡ returns tt) registry.definitions _ definition h
        valid)

pub find_definition-valid :
    (registry : WorkflowRegistry) (id : String) (version : Option String) (d : WorkflowDefinition)
    → IsRegistry registry
    → find_definition registry id version ≡ returns d
    → validate_definition d ≡ returns tt
unfolding find_definition
find_definition-valid registry id version d h e =
    elim (Option-cases (option_case version (get registry.latest id) (λ v. some v))) [
      | inl none_found ↦ let bad = rw none_found at e in cc
      | inr (v, chosen) ↦ elim (Bool-cases (is_empty v)) [
        | inl blank ↦ let bad = rw (chosen, blank) at e in cc
        | inr named ↦ elim (Option-cases (get registry.definitions (key id v))) [
          | inl absent ↦ let bad = rw (chosen, named, absent) at e in cc
          | inr (found, stored) ↦
              let same : returns found ≡ returns d = rw (chosen, named, stored) at e in
              let found-eq : found ≡ d = ground (arith, same) in
              subst (λ x. validate_definition x ≡ returns tt) found-eq
                (All-values-get (λ x. validate_definition x ≡ returns tt) registry.definitions
                  (key id v) h stored)
        ]
      ]
    ]

pending_in-le-length :
    (steps : List StepDefinition) (m : Map StepState) → pending_in steps m ≤ length steps
pending_in-le-length [] m = omega arith
pending_in-le-length (s ∷ ss) m = ground (arith, pending_in-le-length ss m)

drive-ends :
    (executor : WorkflowExecutor) (definition : WorkflowDefinition) (run : WorkflowRun) (d : Drive)
    → validate_definition definition ≡ returns tt
    → 0 < executor.concurrency
    → ((n : ℕ) → Settles (d.rounds n).env)
    → length definition.steps < d.fuel
    → is_some (drive executor definition run d) ≡ true
unfolding drive
drive-ends executor definition run d valid positive settles fuel = is_some-option_case _ _ (
    drive_loop-ends definition executor.concurrency d.rounds
      (validate_definition-Distinct definition valid) positive settles d.fuel 0 _ false
      (omega (arith, pending_in-le-length definition.steps run.steps)))

module _ (executor : WorkflowExecutor) (definition : WorkflowDefinition) (d : Drive)
    (checked : IsRegistry executor.registry) (positive : 0 < executor.concurrency)
    (settles : (n : ℕ) → Settles (d.rounds n).env) (fuel : length definition.steps < d.fuel) where
  -- From a registry of validated definitions, a definition that is found and has all its handlers
  -- starts, and the run is driven to an end within as many rounds as it has steps and one more.
  pub start-ends :
      (id : String) (options : StartOptions) (run_id correlation_id : String)
      → find_definition executor.registry id options.version ≡ returns definition
      → missing_handlers executor.registry definition ≡ []
      → (answer : Option (WorkflowExecutor × WorkflowRun)) × (start executor id options run_id
            correlation_id d
          ≡ returns answer)
        × (is_some answer ≡ true)
  unfolding start
  start-ends id options run_id correlation_id found complete = (
    drive
        (announce (of_run workflow_started RunStatus.pending)
          (store_run executor (created_run definition options run_id correlation_id d.now)))
        definition (created_run definition options run_id correlation_id d.now) d,
    rw (found, complete) refl,
    drive-ends
        (announce (of_run workflow_started RunStatus.pending)
          (store_run executor (created_run definition options run_id correlation_id d.now)))
        definition (created_run definition options run_id correlation_id d.now) d
        (find_definition-valid executor.registry id options.version definition checked found)
        positive settles fuel,
  )
