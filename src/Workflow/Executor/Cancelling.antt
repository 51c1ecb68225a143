-- ===== src/Workflow/Executor/Cancelling.antt =====
-- packages/workflow-engine/src/executor.ts: `cancel` of a stored run.
use ryvan_os.Workflow.Environment.{of_run, workflow_cancelled}
use ryvan_os.Workflow.Executor.{announce, store_run}
use ryvan_os.Base.{ℕ, String, ◌≡◌, refl, true, false, some, [], ◌∷◌, arith, ◌==◌, All, returns}
use ryvan_os.Base.Map.{get-set, get-set_same, Map, get, values}
use ryvan_os.Workflow.Types.{RunStatus, StepState, WorkflowRun}
use ryvan_os.Workflow.Driver.{cancelled_run, is_terminal, is_terminal_step, skip_unfinished}
use ryvan_os.Workflow.Executor.{WorkflowExecutor, cancel}

skip_unfinished-terminal :
    (m : Map StepState) → All (λ s. is_terminal_step s.status ≡ true) (values (skip_unfinished m))
unfolding skip_unfinished
skip_unfinished-terminal [] = tt
skip_unfinished-terminal ((k, s) ∷ m) = (ground arith, skip_unfinished-terminal m)

get-skip_unfinished :
    (m : Map StepState) (id : String) {s : StepState}
    → get m id ≡ some s
    → is_terminal_step s.status ≡ true
    → get (skip_unfinished m) id ≡ some s
unfolding skip_unfinished get
get-skip_unfinished [] id h t = cc
get-skip_unfinished ((k, r) ∷ m) id {s} h t = ground (arith, get-skip_unfinished m id {s = s})

-- Cancelling a stored run that has not ended stores it as cancelled, with every step ended: the
-- steps that had ended are as they were. Other runs stay, and cancelling again changes nothing.
pub cancel_lem :
    (executor : WorkflowExecutor) (run : WorkflowRun) (now later : ℕ)
    → get executor.store run.id ≡ some run
    → is_terminal run.status ≡ false
    → (next : WorkflowExecutor) × (ended : WorkflowRun) × (cancel executor run.id now
        ≡ returns (next, ended))
      × (get next.store run.id ≡ some ended)
      × (ended.status ≡ RunStatus.cancelled)
      × All (λ s. is_terminal_step s.status ≡ true) (values ended.steps)
      × ((id : String) (s : StepState)
          → get run.steps id ≡ some s
          → is_terminal_step s.status ≡ true
          → get ended.steps id ≡ some s)
      × ((id : String) → (run.id == id) ≡ false → get next.store id ≡ get executor.store id)
      × (cancel next run.id later ≡ returns (next, ended))
unfolding cancel cancelled_run is_terminal
cancel_lem executor run now later stored going =
    let ended = cancelled_run run now in
    let next : WorkflowExecutor =
      announce (of_run workflow_cancelled RunStatus.cancelled) (store_run executor ended) in
    (
      next,
      ended,
      rw (stored, going) refl,
      get-set_same executor.store run.id ended,
      refl,
      skip_unfinished-terminal run.steps,
      λ id s h t. get-skip_unfinished run.steps id {s = s} h t,
      λ id other. rw (get-set executor.store run.id id ended, other) refl,
      rw (get-set_same executor.store run.id ended) refl,
    )
