-- ===== src/Workflow/Service/Tests.antt =====
-- Two steps of one run that wait for events of one type.
use ryvan_os.Workflow.Executor.{deliver}
use ryvan_os.Workflow.Service.Delivering.{deliver_lem, Delivered}
use ryvan_os.Workflow.Environment.{Live}
use ryvan_os.Workflow.Types.{StepStatus, StepKind, StepDefinition, StepState}
use ryvan_os.Base.{String, Bool, true, false, none, some, List, [], ◌∷◌}
use ryvan_os.Base.Map.{get}
use ryvan_os.Workflow.Samples.{step_named, fresh_state, fresh_run}

abbrev waits_for_payment : String → Bool → StepDefinition
waits_for_payment id matched = record (step_named id []) {
  kind = StepKind.event;
  event = some (record { type = "paid"; timeout_ms = none; match_correlation_id = matched });
}

abbrev any_payment : StepDefinition
any_payment = waits_for_payment "a" false

abbrev own_payment : StepDefinition
own_payment = waits_for_payment "b" true

abbrev two_waits : List StepDefinition
two_waits = any_payment ∷ own_payment ∷ []

abbrev waiting_state : String → StepState
waiting_state id = record (fresh_state id) { status = StepStatus.waiting }

abbrev waiting_run : Live
waiting_run = record {
  run = record fresh_run { steps = ("a", waiting_state "a") ∷ ("b", waiting_state "b") ∷ [] };
  emitted = [];
}

deliver_lem_example :
    Delivered "12" true
      (some (waiting_state "b"))
      (get (deliver two_waits "paid" "12" 8 waiting_run).0.run.steps "b")
unfolding get
deliver_lem_example = deliver_lem "paid" "12" 8 two_waits waiting_run "b"
