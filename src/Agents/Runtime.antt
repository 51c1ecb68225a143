-- ===== src/Agents/Runtime.antt =====
-- packages/agent-runtime/src/runtime-service.ts. What the planner answers is an argument; the plan
-- of a task is an opaque text.
pub mod Cancelling
pub mod Waiting
pub mod Stopping
use ryvan_os.Agents.TaskQueue.{
  Task, TaskStatus, TaskPriority, enqueue, cancel, get_by_id, empty_queue,
}
use ryvan_os.Agents.Scheduler.{
  task_created, Scheduler, task_cancelled, notes, new_scheduler, start, begin_stop, end_stop,
}
use ryvan_os.Base.Map.{get, set}
use ryvan_os.Base.{
  ℕ, String, Bool, true, false, Option, none, some, if◌then◌else◌, or_default, option_case, Outcome,
  returned, threw,
}

pub data Status : Type 0 where
  stopped starting running stopping : Status

pub record RuntimeService : Type 0 where
  pub state : Status
  pub scheduler : Scheduler

abbrev pub default_max_concurrency : ℕ
default_max_concurrency = 5

abbrev pub new_service : Option ℕ → RuntimeService
new_service max_concurrency = record {
  state = Status.stopped;
  scheduler = new_scheduler empty_queue (or_default max_concurrency default_max_concurrency);
}

abbrev pub start_service : RuntimeService → RuntimeService
start_service r = record { state = Status.running; scheduler = start r.scheduler }

-- `stop` up to the wait of the scheduler, and from there on.
abbrev pub begin_stop_service : RuntimeService → ℕ → RuntimeService
begin_stop_service r now = record {
  state = Status.stopping;
  scheduler = begin_stop r.scheduler now;
}

abbrev pub end_stop_service : RuntimeService → ℕ → RuntimeService
end_stop_service r now = record { state = Status.stopped; scheduler = end_stop r.scheduler now }

pub record SubmitOptions : Type 0 where
  pub priority : Option TaskPriority
  pub agent_id : Option String
  pub timeout : Option ℕ
  pub max_attempts : Option ℕ
  pub metadata : Option String
  pub parent_task_id : Option String

-- The task that `submit` creates.
abbrev pub new_task : String → String → SubmitOptions → ℕ → Task
new_task id goal options now = record {
  id = id;
  goal = goal;
  status = TaskStatus.pending;
  priority = or_default options.priority TaskPriority.normal;
  agent_id = options.agent_id;
  parent_task_id = options.parent_task_id;
  plan = none;
  result = none;
  error = none;
  attempts = 0;
  max_attempts = or_default options.max_attempts 3;
  timeout = or_default options.timeout 300000;
  metadata = or_default options.metadata "{}";
  created_at = now;
  started_at = none;
  completed_at = none;
}

-- `submit` up to the call of the planner.
unfoldable pub begin_submit :
    RuntimeService → String → String → SubmitOptions → ℕ → RuntimeService × Outcome Task
begin_submit r id goal options now =
    let task = new_task id goal options now in
    elim r.state [
      | Status.running ↦ (
        record r { scheduler = notes r.scheduler (task_created task) },
        returned (record task { status = TaskStatus.planning }),
      )
      | _ ↦ (r, threw "RuntimeService is not running")
    ]

-- `submit` from the planner's answer on.
unfoldable pub end_submit : RuntimeService → Task → Outcome String → RuntimeService × Outcome Task
end_submit r task (threw e) = (r, threw e)
end_submit r task (returned plan) =
    let queued = record task { plan = some plan; status = TaskStatus.queued } in
    (
      record r { scheduler = record r.scheduler { queue = enqueue r.scheduler.queue queued } },
      returned queued,
    )

abbrev pub cancelled_at : ℕ → Task → Task
cancelled_at now task = record task { status = TaskStatus.cancelled; completed_at = some now }

-- A running task is only marked.
unfoldable pub cancel_task : RuntimeService → String → ℕ → RuntimeService × Bool
cancel_task r id now =
    let s = r.scheduler in
    let (queue, queued) = cancel s.queue id now in
    let told = notes s (task_cancelled id) in
    let marked =
      option_case (get s.running id) (r, false)
        (λ task. (
          record r {
            scheduler = record told { running = set s.running id (cancelled_at now task) };
          },
          true,
        )) in
    if queued then (record r { scheduler = record told { queue = queue } }, true) else marked

unfoldable pub get_task : RuntimeService → String → Option Task
get_task r id =
    option_case (get_by_id r.scheduler.queue id) (get r.scheduler.running id) (λ task. some task)
