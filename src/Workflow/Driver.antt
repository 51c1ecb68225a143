-- ===== src/Workflow/Driver.antt =====
-- packages/workflow-engine/src/executor.ts: the loop that drives a run, and how a run ends.
pub mod Sequence
pub mod Reversing
pub mod Compensating
pub mod Progressing
pub mod Drives
use Prim.Native.String.{◌++◌ as append}
use ryvan_os.Base.{
  ℕ, zero, suc, ◌+◌, String, Bool, true, false, not, ◌&&◌, ◌||◌, Option, none, some, List, [], ◌∷◌,
  ◌++◌, leb, ◌==◌, is_empty, quoted, if◌then◌else◌, or_default, option_case, keep_if, returned,
  threw,
}
use ryvan_os.Base.Map.{Map, get, set, values}
use ryvan_os.Workflow.Types.{
  RunStatus, StepStatus, StepDefinition, WorkflowDefinition, StepState, WorkflowRun, Failure,
}
use ryvan_os.Workflow.Transitions.{is_completed, fatal_failure, ready_steps, has_waiting}
use ryvan_os.Workflow.Environment.{
  of_run, Env, Live, emit, workflow_suspended, workflow_completed, workflow_failed,
  workflow_compensated, workflow_cancelled,
}
use ryvan_os.Workflow.Execution.{with_run}
use ryvan_os.Workflow.Rounds.{settle_waiting_steps, run_batch}

-- The executor during one call: its store, and the run in its hands.
pub record Exec : Type 0 where
  pub store : Map WorkflowRun
  pub live : Live

abbrev pub save : Exec → Exec
save x = record x { store = set x.store x.live.run.id x.live.run }

abbrev pub with_status : RunStatus → Live → Live
with_status status live = with_run live (record live.run { status = status })

unfoldable pub is_terminal : RunStatus → Bool
is_terminal RunStatus.completed = true
is_terminal RunStatus.failed = true
is_terminal RunStatus.compensated = true
is_terminal RunStatus.cancelled = true
is_terminal _ = false

abbrev pub is_terminal_step : StepStatus → Bool
is_terminal_step StepStatus.completed = true
is_terminal_step StepStatus.skipped = true
is_terminal_step StepStatus.failed = true
is_terminal_step StepStatus.compensated = true
is_terminal_step _ = false

abbrev pub failure_message : Failure → String
failure_message f = append "step " (append (quoted f.step_id) (append " failed: " f.error))

unfoldable pub complete_run : Exec → WorkflowDefinition → ℕ → Exec
unfolding is_terminal
complete_run x definition now =
    let run = x.live.run in
    let done =
      option_case (fatal_failure run definition)
        (record run { status = RunStatus.completed; completed_at = some now })
        (λ f. record run {
          status = RunStatus.failed;
          completed_at = some now;
          error = some (failure_message f);
        }) in
    let event =
      option_case (fatal_failure run definition) workflow_completed (λ f. workflow_failed) in
    if is_terminal run.status
    then x
    else (let y = save (record x { live = with_run x.live done }) in
        record y { live = emit event y.live })

-- `new Map(definition.steps.map((step) => [step.id, step])).get(id)`.
pub step_of : List StepDefinition → String → Option StepDefinition
step_of [] id = none
step_of (s ∷ ss) id =
    option_case (step_of ss id) (if s.id == id then some s else none) (λ t. some t)

abbrev pub sequence_of : StepState → ℕ
sequence_of s = or_default s.sequence 0

-- `.sort((a, b) => b.sequence - a.sequence)`.
insert_state : StepState → List StepState → List StepState
insert_state s [] = s ∷ []
insert_state s (t ∷ ts) =
    if leb (sequence_of t) (sequence_of s) then s ∷ t ∷ ts else t ∷ insert_state s ts

sort_states : List StepState → List StepState
sort_states [] = []
sort_states (s ∷ ss) = insert_state s (sort_states ss)

abbrev pub compensates : WorkflowDefinition → StepState → Bool
compensates definition s =
    is_completed s.status
    && option_case (step_of definition.steps s.id) false
        (λ step. option_case step.compensate false (λ c. not (is_empty c)))

-- The completed steps with a compensation, last completed first.
unfoldable pub to_compensate : WorkflowRun → WorkflowDefinition → List StepState
unfolding sort_states insert_state
to_compensate run definition = sort_states (keep_if (compensates definition) (values run.steps))

-- Whether the compensation of a step is registered and returns.
unfoldable pub undone : Env → WorkflowDefinition → StepState → Bool
undone env definition s = option_case (step_of definition.steps s.id) false (λ step.
    option_case (option_case step.compensate none env.handler) false
      (λ call. elim (call s.id 1) [ returned v ↦ true | threw e ↦ false ]))

unfoldable pub compensate_all :
    Env → WorkflowDefinition → List StepState → WorkflowRun → WorkflowRun × Bool
unfolding undone
compensate_all env definition [] run = (run, false)
compensate_all env definition (s ∷ ss) run =
    let reversed = undone env definition s in
    let run' =
      if reversed
      then record run { steps = set run.steps s.id (record s { status = StepStatus.compensated }) }
      else run in
    let (run'', any_undone) = compensate_all env definition ss run' in
    (run'', reversed || any_undone)

unfoldable pub fail_run : Env → Exec → WorkflowDefinition → Failure → Exec
unfolding compensate_all to_compensate
fail_run env x definition failure =
    let started = save (record x {
      live = with_run x.live (record x.live.run {
        status = RunStatus.compensating;
        error = some (failure_message failure);
      });
    }) in
    let (run, any_undone) =
      compensate_all env definition (to_compensate started.live.run definition) started.live.run in
    let ended = save (record started {
      live = with_run started.live (record run {
        status = if any_undone then RunStatus.compensated else RunStatus.failed;
        completed_at = some env.now;
      });
    }) in
    record ended {
      live =
          emit workflow_failed
            (if any_undone then emit workflow_compensated ended.live else ended.live);
    }

unfoldable pub skip_unfinished : Map StepState → Map StepState
skip_unfinished [] = []
skip_unfinished ((k, s) ∷ m) =
    (k, if is_terminal_step s.status then s else record s { status = StepStatus.skipped })
    ∷ skip_unfinished m

-- What `cancel` writes over the stored run.
unfoldable pub cancelled_run : WorkflowRun → ℕ → WorkflowRun
unfolding skip_unfinished
cancelled_run run now = record run {
  status = RunStatus.cancelled;
  completed_at = some now;
  steps = skip_unfinished run.steps;
}

-- `cancel()` from another caller while the run is driven: it works on the stored run, and says
-- whether it aborted the drive.
unfoldable pub cancel_stored : Exec → ℕ → Exec × Bool
unfolding cancelled_run is_terminal
cancel_stored x now =
    option_case (get x.store x.live.run.id) (x, false)
      (λ stored. if is_terminal stored.status then (x, false) else (
        record x {
          store = set x.store stored.id (cancelled_run stored now);
          live = record x.live {
            emitted = x.live.emitted ++ of_run workflow_cancelled RunStatus.cancelled ∷ [];
          };
        },
        true,
      ))

-- When in a round another caller cancels the run.
pub data CancelPoint : Type 0 where
  never before_check while_settling while_running : CancelPoint

pub record Round : Type 0 where
  pub env : Env
  pub cancels : CancelPoint

abbrev pub cancel_if : Bool → Exec → ℕ → Exec × Bool
cancel_if true x now = cancel_stored x now
cancel_if false x now = (x, false)

abbrev is_before : CancelPoint → Bool
is_before before_check = true
is_before _ = false

abbrev is_settling : CancelPoint → Bool
is_settling while_settling = true
is_settling _ = false

abbrev is_running : CancelPoint → Bool
is_running while_running = true
is_running _ = false

-- The end of a drive, or another round with the abort signal as it stands.
pub data Progress : Type 0 where
  ended : Exec → Progress
  again : Exec → Bool → Progress

-- `(await this.store.get(run.id)) ?? run`.
abbrev pub stored_run : Exec → Exec
stored_run x = record x {
  live = with_run x.live (or_default (get x.store x.live.run.id) x.live.run);
}

abbrev pub suspend : Exec → Exec
suspend x =
    let y = save (record x { live = with_status RunStatus.suspended x.live }) in
    record y { live = emit workflow_suspended y.live }

module _ (definition : WorkflowDefinition) (concurrency : ℕ) (r : Round) where
  -- From the batch to the end of the round.
  unfoldable pub after_batch : Exec → Bool → Live × Option Failure → Progress
  after_batch x aborted (live, failure) =
      let (y, cancelled) = cancel_if (is_running r.cancels) (record x { live = live }) r.env.now in
      let saved = save y in
      if aborted || cancelled
      then ended (stored_run y)
      else option_case failure (again saved false) (λ f. ended (fail_run r.env saved definition f))

  unfoldable pub on_ready : List StepDefinition → Exec → Bool → Progress
  unfolding after_batch
  on_ready [] x aborted =
      if has_waiting x.live.run
      then ended (suspend x)
      else ended (complete_run x definition r.env.now)
  on_ready (s ∷ ss) x aborted =
      after_batch x aborted (run_batch r.env definition concurrency (s ∷ ss) x.live)

  unfoldable pub after_settling : Exec → Bool → Progress
  unfolding on_ready
  after_settling x aborted =
      option_case (fatal_failure x.live.run definition)
        (on_ready (ready_steps x.live.run definition) x aborted)
        (λ f. ended (fail_run r.env (save x) definition f))

  -- One round of the loop in `drive`.
  unfoldable pub round : Exec → Bool → Progress
  unfolding after_settling
  round x aborted =
      let (y, cancelled) = cancel_if (is_before r.cancels) x r.env.now in
      let settled = record y { live = settle_waiting_steps r.env definition y.live } in
      let (z, late) = cancel_if (is_settling r.cancels) settled r.env.now in
      if aborted || cancelled then ended (stored_run y) else after_settling z late

-- The loop, on fuel; round `n` sees `rounds n`.
unfoldable pub drive_loop : ℕ → WorkflowDefinition → ℕ → (ℕ → Round) → ℕ → Exec → Bool → Option Exec
unfolding round
drive_loop zero definition concurrency rounds n x aborted = none
drive_loop (suc fuel) definition concurrency rounds n x aborted =
    elim (round definition concurrency (rounds n) x aborted) [
      | ended y ↦ some y
      | again y signal ↦ drive_loop fuel definition concurrency rounds (n + 1) y signal
    ]
