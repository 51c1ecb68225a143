-- ===== src/Agents/Runtime/Cancelling.antt =====
-- packages/agent-runtime/src/runtime-service.ts: cancelling a task that runs.
use ryvan_os.Agents.TaskQueue.{Task, enqueue, cancel}
use ryvan_os.Agents.Scheduler.{fail_task, settle_failure, retried}
use ryvan_os.Agents.Runtime.{RuntimeService, cancel_task, cancelled_at}
use ryvan_os.Base.Map.{get, get-set_same}
use ryvan_os.Base.{ℕ, ◌<◌, String, ◌≡◌, refl, true, false, some, arith, ltb, ◌==◌, any}

-- Cancelling a running task, which is not queued, answers that it was cancelled, but leaves it with
-- the scheduler: when it is then reported as failed to a scheduler that runs, and has an attempt
-- left, it is pending in the queue again.
pub cancelled_retries :
    (r : RuntimeService) (id error : String) (now later : ℕ) (task : Task)
    → any (λ x. x == id) r.scheduler.queue.order ≡ false
    → r.scheduler.is_running ≡ true
    → get r.scheduler.running id ≡ some task
    → task.attempts < task.max_attempts
    → ((cancel_task r id now).1 ≡ true)
      × ((fail_task (cancel_task r id now).0.scheduler id error later).0.queue
          ≡ enqueue r.scheduler.queue (retried (cancelled_at now task) error))
unfolding cancel_task fail_task settle_failure cancel
cancelled_retries r id error now later task absent on found left =
    let again : ltb task.attempts task.max_attempts ≡ true = ground arith in
    let kept = get-set_same r.scheduler.running id (cancelled_at now task) in
    rw (absent, found, on, kept, again) (refl, refl)
