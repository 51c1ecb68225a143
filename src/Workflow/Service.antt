-- ===== src/Workflow/Service.antt =====
-- packages/workflow-engine/src/workflow-service.ts: ticking suspended runs and routing events. The
-- timer, the logger and the state that `status()` shows are left out.
pub mod Delivering
pub mod Tests
use ryvan_os.Base.{
  ℕ, String, Bool, false, not, ◌&&◌, ◌||◌, Option, none, some, List, [], ◌∷◌, ◌++◌, leb, ◌==◌,
  is_empty, if◌then◌else◌, is_some, option_case, opt_eq, any, Result, throws, returns, ◌>>=◌,
}
use ryvan_os.Base.Map.{get, values}
use ryvan_os.Workflow.Types.{Json, StepDefinition, WorkflowDefinition, StepState, WorkflowRun}
use ryvan_os.Workflow.Registry.{register, find_definition}
use ryvan_os.Workflow.Store.{list_runs, suspended_runs}
use ryvan_os.Workflow.Transitions.{is_waiting, state_is}
use ryvan_os.Workflow.Executor.{WorkflowExecutor, Drive, resume, notify_event, awaits, is_event}

-- `subscriptions` are the event types with a subscription; `bus` says whether there is a bus.
pub record WorkflowService : Type 0 where
  pub executor : WorkflowExecutor
  pub subscriptions : List String
  pub bus : Bool
  pub ticking : Bool

abbrev pub subscribe : Option String → List String → List String
subscribe none types = types
subscribe (some type) types =
    if is_empty type || any (λ t. t == type) types then types else types ++ type ∷ []

abbrev pub event_type : StepDefinition → Option String
event_type step =
    if is_event step.kind then option_case step.event none (λ e. some e.type) else none

-- `subscribeEventSteps`.
unfoldable pub subscribe_steps : List StepDefinition → List String → List String
subscribe_steps [] types = types
subscribe_steps (step ∷ steps) types = subscribe_steps steps (subscribe (event_type step) types)

unfoldable pub register_workflow : WorkflowService → WorkflowDefinition → Result WorkflowService
register_workflow service definition = register service.executor.registry definition >>= λ registry.
    returns (record service {
      executor = record service.executor { registry = registry };
      subscriptions =
          if service.bus
          then subscribe_steps definition.steps service.subscriptions
          else service.subscriptions;
    })

abbrev pub is_due : ℕ → StepState → Bool
is_due now s =
    is_waiting s.status
    && (option_case s.resume_at false (λ at. leb at now) || is_some s.approval_id)

-- The loop of `tick` over the runs that were suspended; an error of one run is logged.
unfoldable pub resume_due :
    List WorkflowRun
    → WorkflowExecutor
    → ℕ
    → (String → Drive)
    → Option (WorkflowExecutor × List WorkflowRun)
resume_due [] executor now drives = some (executor, [])
resume_due (run ∷ runs) executor now drives =
    if any (is_due now) (values run.steps)
    then elim (resume executor run.id (drives run.id)) [
      | throws e ↦ resume_due runs executor now drives
      | returns answer ↦ elim answer [
        | none ↦ none
        | some (next, resumed) ↦
            option_case (resume_due runs next now drives) none (λ r. some (r.0, resumed ∷ r.1))
      ]
    ]
    else resume_due runs executor now drives

unfoldable pub tick :
    WorkflowService → ℕ → (String → Drive) → Option (WorkflowService × List WorkflowRun)
unfolding resume_due list_runs
tick service now drives =
    if service.ticking
    then some (service, [])
    else option_case
        (resume_due (list_runs service.executor.store suspended_runs) service.executor now drives)
        none (λ r. some (record service { executor = r.0 }, r.1))

-- An event of the bus, as far as the service reads it.
pub record BusEvent : Type 0 where
  pub type : String
  pub payload : Json
  pub correlation_id : Option String

-- Whether the step of the run waits for this very event.
abbrev pub step_waits_for : BusEvent → WorkflowRun → StepDefinition → Bool
step_waits_for event run step =
    awaits step event.type
    && state_is is_waiting (get run.steps step.id)
    && not (
        option_case step.event false (λ e. e.match_correlation_id)
        && not (opt_eq event.correlation_id (some run.correlation_id)))

-- The loop of `dispatchEvent`: an error of `notifyEvent` is logged, one of `registry.get` is thrown.
unfoldable pub dispatch_to :
    List WorkflowRun
    → WorkflowExecutor
    → BusEvent
    → (String → Drive)
    → Result (Option WorkflowExecutor)
dispatch_to [] executor event drives = returns (some executor)
dispatch_to (run ∷ runs) executor event drives =
    find_definition executor.registry run.definition_id (some run.definition_version)
    >>= λ definition.
        if any (step_waits_for event run) definition.steps
        then elim (notify_event executor run.id event.type event.payload (drives run.id)) [
          | throws e ↦ dispatch_to runs executor event drives
          | returns answer ↦ elim answer [
            | none ↦ returns none
            | some (next, notified) ↦ dispatch_to runs next event drives
          ]
        ]
        else dispatch_to runs executor event drives

unfoldable pub dispatch_event :
    WorkflowExecutor → BusEvent → (String → Drive) → Result (Option WorkflowExecutor)
unfolding dispatch_to list_runs
dispatch_event executor event drives =
    dispatch_to (list_runs executor.store suspended_runs) executor event drives
