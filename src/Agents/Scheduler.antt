-- ===== src/Agents/Scheduler.antt =====
-- packages/agent-runtime/src/scheduler.ts. The clock is an argument; handlers of the events that the
-- scheduler emits do not call it back.
pub mod Attempts
pub mod Bounds
pub mod Stopping
pub mod Filling
pub mod Tests
pub mod Polling
use ryvan_os.Agents.TaskQueue.{Task, TaskQueue, TaskResult, TaskStatus, dequeue, enqueue, get_by_id}
use Prim.Native.String.{◌++◌ as append}
use ryvan_os.Base.Map.{Map, get, set, delete}
use ryvan_os.Base.{
  ℕ, zero, suc, ◌+◌, String, Bool, true, false, none, some, List, [], ◌∷◌, ◌++◌, ltb, if◌then◌else◌,
  option_case, length, Outcome, returned, threw,
}

pub data TaskEvent : Type 0 where
  task_created task_started task_completed : Task → TaskEvent
  task_failed : Task → Bool → TaskEvent
  task_cancelled : String → TaskEvent
  task_assigned : String → String → ℕ → TaskEvent

-- `finished` holds the tasks that have left the scheduler, as their submitters see them.
pub record Scheduler : Type 0 where
  pub queue : TaskQueue
  pub running : Map Task
  pub is_running : Bool
  pub completed_count : ℕ
  pub failed_count : ℕ
  pub total_duration_ms : ℕ
  pub max_concurrency : ℕ
  pub events : List TaskEvent
  pub finished : List Task

abbrev pub new_scheduler : TaskQueue → ℕ → Scheduler
new_scheduler queue max_concurrency = record {
  queue = queue;
  running = [];
  is_running = false;
  completed_count = 0;
  failed_count = 0;
  total_duration_ms = 0;
  max_concurrency = max_concurrency;
  events = [];
  finished = [];
}

abbrev pub start : Scheduler → Scheduler
start s = record s { is_running = true }

abbrev pub notes : Scheduler → TaskEvent → Scheduler
notes s e = record s { events = s.events ++ e ∷ [] }

abbrev pub called_off : ℕ → Task → Task
called_off now task = record task { status = TaskStatus.cancelled; completed_at = some now }

abbrev pub drained : Task → ℕ → Scheduler → Scheduler
drained task now s = record s {
  events = s.events ++ task_cancelled task.id ∷ [];
  finished = s.finished ++ called_off now task ∷ [];
}

-- The loop of `stop` over `dequeue`.
unfoldable pub drain : ℕ → ℕ → Scheduler → Scheduler
drain zero now s = s
drain (suc fuel) now s =
    option_case (dequeue s.queue).1 (record s { queue = (dequeue s.queue).0 })
      (λ task. drain fuel now (drained task now (record s { queue = (dequeue s.queue).0 })))

-- `stop` up to its wait for the running tasks.
unfoldable pub begin_stop : Scheduler → ℕ → Scheduler
unfolding drain
begin_stop s now = drain (length s.queue.order + 1) now (record s { is_running = false })

abbrev pub shut_down : ℕ → Task → Task
shut_down now task = record task {
  status = TaskStatus.failed;
  error = some "Scheduler shutdown";
  completed_at = some now;
}

-- `stop` after its wait.
unfoldable pub force_stop : Map Task → ℕ → Scheduler → Scheduler
force_stop [] now s = s
force_stop ((id, task) ∷ rest) now s =
    let ended = shut_down now task in
    force_stop rest now (record s {
      running = delete s.running ended.id;
      failed_count = s.failed_count + 1;
      events = s.events ++ task_failed ended false ∷ [];
      finished = s.finished ++ ended ∷ [];
    })

abbrev pub end_stop : Scheduler → ℕ → Scheduler
end_stop s now = force_stop s.running now s

abbrev not_running : Outcome (Unit {0})
not_running = threw "Scheduler is not running"

-- The object is the one in the queue or the one that runs.
unfoldable pub assign : Scheduler → String → String → ℕ → Scheduler × Outcome (Unit {0})
assign s task_id agent_id now =
    let assigned = notes s (task_assigned task_id agent_id now) in
    let queued = option_case (get_by_id s.queue task_id) none (λ (t : Task). some (record assigned {
      queue = record s.queue {
        tasks = set s.queue.tasks task_id (record t { agent_id = some agent_id });
      };
    })) in
    let running = option_case (get s.running task_id) none (λ (t : Task). some (record assigned {
      running = set s.running task_id (record t { agent_id = some agent_id });
    })) in
    if s.is_running
    then option_case queued
        (option_case running (s, threw (append "Task " (append task_id " not found")))
          (λ r. (r, returned tt)))
        (λ r. (r, returned tt))
    else (s, not_running)

abbrev not_running_task : String → Outcome (Unit {0})
not_running_task id = threw (append "Task " (append id " is not running"))

abbrev pub completed_task : Task → TaskResult → ℕ → Task
completed_task task result now = record task {
  status = TaskStatus.completed;
  result = some result;
  completed_at = some now;
}

unfoldable pub submit_result : Scheduler → String → TaskResult → ℕ → Scheduler × Outcome (Unit {0})
submit_result s task_id result now =
    if s.is_running
    then option_case (get s.running task_id) (s, not_running_task task_id)
        (λ task. (
          record s {
            running = delete s.running task_id;
            completed_count = s.completed_count + 1;
            total_duration_ms = s.total_duration_ms + result.duration;
            events = s.events ++ task_completed (completed_task task result now) ∷ [];
            finished = s.finished ++ completed_task task result now ∷ [];
          },
          returned tt,
        ))
    else (s, not_running)

abbrev pub retried : Task → String → Task
retried task error = record task {
  error = some error;
  status = TaskStatus.pending;
  started_at = none;
}

abbrev pub failed_task : Task → String → ℕ → Task
failed_task task error now = record task {
  error = some error;
  status = TaskStatus.failed;
  completed_at = some now;
}

-- A running task has failed.
unfoldable pub settle_failure : Scheduler → String → String → ℕ → Task → Scheduler
settle_failure s task_id error now task =
    if ltb task.attempts task.max_attempts
    then record s {
      running = delete s.running task_id;
      queue = enqueue s.queue (retried task error);
      events = s.events ++ task_failed (retried task error) true ∷ [];
    }
    else record s {
      running = delete s.running task_id;
      failed_count = s.failed_count + 1;
      events = s.events ++ task_failed (failed_task task error now) false ∷ [];
      finished = s.finished ++ failed_task task error now ∷ [];
    }

unfoldable pub fail_task : Scheduler → String → String → ℕ → Scheduler × Outcome (Unit {0})
unfolding settle_failure
fail_task s task_id error now =
    if s.is_running
    then option_case (get s.running task_id) (s, not_running_task task_id)
        (λ task. (settle_failure s task_id error now task, returned tt))
    else (s, not_running)
