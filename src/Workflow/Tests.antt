-- ===== src/Workflow/Tests.antt =====
-- A run of two dependent steps.
use ryvan_os.Workflow.Samples.{
  step_named, two_steps, fresh_state, fresh_run, env, env-Settles, fresh, rounds, distinct,
}
use ryvan_os.Workflow.Driver.{
  cancel_stored, cancelled_run, before_check, while_settling, is_terminal,
}
use ryvan_os.Workflow.Driver.Drives.{
  Overwrites, begun, goes_on, cancel_lost, Reaches-DepsMet, cancelling_at,
}
use ryvan_os.Workflow.Transitions.Order.{is_started}
use ryvan_os.Workflow.Driver.Compensating.{fail_run_lem, FailsRun}
use ryvan_os.Workflow.Rounds.{run_slice, slices_from, run_batch, settle_step, settle_waiting_steps}
use ryvan_os.Workflow.Rounds.Dependencies.{DoneAt, DepsMet}
use ryvan_os.Workflow.Execution.{run_action, start_step, finish_step}
use ryvan_os.Workflow.Transitions.{
  has_waiting, complete_step, state_is, ready_steps, skip_dependents, fatal_failure,
}
use ryvan_os.Workflow.Transitions.Skipping.{skip_dependents-SkipsDependents, SkipsDependents}
use ryvan_os.Base.Map.{get, set}
use ryvan_os.Workflow.Driver.Progressing.{pending_in, drive_loop-ends}
use ryvan_os.Workflow.Driver.{
  complete_run, again, ended, fail_run, round, Progress, drive_loop, Exec,
}
use ryvan_os.Workflow.Types.{
  Failure, StepStatus, StepKind, RunStatus, WorkflowDefinition, Json, WorkflowRun, StepDefinition,
}
use ryvan_os.Base.{
  ℕ, ◌+◌, ◌≤◌, ◌≡◌, refl, sym, ap, ◌∙◌, subst, inl, inr, true, false, Option, none, some, [], ◌∷◌,
  arith, ltb, if◌then◌else◌, is_some, All, Member-cons, Outcome, returned, threw,
}

run_status : Option Exec → Option RunStatus
run_status none = none
run_status (some x) = some x.live.run.status

drive_runs : run_status (drive_loop 3 two_steps 5 rounds 0 fresh false) ≡ some RunStatus.completed
unfolding drive_loop run_status fatal_failure get settle_waiting_steps settle_step ready_steps
    run_batch slices_from run_slice finish_step start_step set run_action complete_step has_waiting
    complete_run
drive_runs = refl

drive_loop-ends_example : is_some (drive_loop 3 two_steps 5 rounds 0 fresh false) ≡ true
unfolding get
drive_loop-ends_example =
    drive_loop-ends two_steps 5 rounds distinct (omega arith) (λ n. env-Settles) 3 0 fresh false
      (omega arith)

abbrev progressed : Progress → Exec
progressed (ended x) = x
progressed (again x signal) = x

abbrev after_a : Exec
after_a = progressed (round two_steps 5 (rounds 0) fresh false)

fresh-DepsMet : DepsMet two_steps.steps fresh_run.steps
unfolding get
fresh-DepsMet = record {
  met = λ s m h. elim (Member-cons m) [
    | inl q ↦ subst (λ (t : StepDefinition). All (DoneAt fresh_run.steps) t.depends_on) (sym q) tt
    | inr n ↦ elim (Member-cons n) [
      | inl q ↦
          let bad : state_is is_started (get fresh_run.steps "b") ≡ true =
            ap (λ (t : StepDefinition). state_is is_started (get fresh_run.steps t.id)) (sym q)
            ∙ h in
          cc
      | inr none_left ↦ elim none_left [ ]
    ]
  ];
}

a_failed : WorkflowRun
a_failed = record fresh_run {
  steps = set fresh_run.steps "a" (record (fresh_state "a") { status = StepStatus.failed });
}

skip_dependents-SkipsDependents_example :
    SkipsDependents two_steps "a" a_failed (skip_dependents a_failed two_steps "a" 7)
skip_dependents-SkipsDependents_example = skip_dependents-SkipsDependents a_failed two_steps "a" 7

b_completed : WorkflowRun
b_completed = record fresh_run {
  steps =
      ("a", record (fresh_state "a") { status = StepStatus.completed; sequence = some 0 })
      ∷ ("b", record (fresh_state "b") { status = StepStatus.completed; sequence = some 1 })
      ∷ [];
}

abbrev at_b : Exec
at_b = record { store = []; live = record { run = b_completed; emitted = [] } }

abbrev timeout : Failure
timeout = record { step_id = "b"; error = "timeout" }

fail_run_lem_example : FailsRun env two_steps timeout at_b (fail_run env at_b two_steps timeout)
fail_run_lem_example = fail_run_lem env at_b two_steps timeout

abbrev flaky : ℕ → Outcome Json
flaky n = if ltb n 2 then threw "busy" else returned "done"

Reaches-DepsMet_example :
    DepsMet two_steps.steps after_a.live.run.steps
    × (pending_in two_steps.steps after_a.live.run.steps + 1
        ≤ pending_in two_steps.steps fresh_run.steps)
unfolding round fatal_failure get settle_waiting_steps settle_step ready_steps run_batch slices_from
    run_slice finish_step start_step set run_action complete_step has_waiting complete_run
Reaches-DepsMet_example =
    Reaches-DepsMet two_steps 5 rounds fresh distinct (omega arith) (λ n. env-Settles) fresh-DepsMet
      1 after_a false (goes_on {n = 0} {x = fresh} {aborted = false} begun refl)

abbrev event_step : StepDefinition
event_step = record (step_named "e" []) {
  kind = StepKind.event;
  event = some (record { type = "paid"; timeout_ms = none; match_correlation_id = false });
}

abbrev event_flow : WorkflowDefinition
event_flow = record two_steps { steps = event_step ∷ [] }

abbrev waiting_run : WorkflowRun
waiting_run = record fresh_run {
  steps = ("e", record (fresh_state "e") { status = StepStatus.waiting }) ∷ [];
}

abbrev suspended_run : WorkflowRun
suspended_run = record waiting_run { status = RunStatus.suspended }

-- A suspended run that has been resumed.
abbrev waiting_exec : Exec
waiting_exec = record {
  store = ("run-1", suspended_run) ∷ [];
  live = record { run = waiting_run; emitted = [] };
}

cancel_lost_example :
    let settled : Exec = record waiting_exec {
      live = settle_waiting_steps env event_flow waiting_exec.live;
    } in
    ((cancel_stored settled env.now).1 ≡ true)
    × (get (cancel_stored settled env.now).0.store "run-1"
        ≡ some (cancelled_run suspended_run env.now))
    × Overwrites "run-1" (round event_flow 5 (cancelling_at while_settling env) waiting_exec false)
    × (kept : Exec) × (round event_flow 5 (cancelling_at before_check env) waiting_exec false
        ≡ ended kept)
    × (kept.live.run ≡ cancelled_run suspended_run env.now)
    × (get kept.store "run-1" ≡ some kept.live.run)
unfolding get settle_waiting_steps settle_step ready_steps is_terminal
cancel_lost_example =
    cancel_lost event_flow 5 env waiting_exec suspended_run refl refl refl refl refl
