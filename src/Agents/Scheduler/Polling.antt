-- ===== src/Agents/Scheduler/Polling.antt =====
-- packages/agent-runtime/src/scheduler.ts: `poll`, the statistics, and calls that follow one another.
use ryvan_os.Agents.Scheduler.{task_started, Scheduler, assign, submit_result, fail_task}
use ryvan_os.Agents.TaskQueue.{Task, TaskResult, TaskStatus, dequeue, size}
use Prim.Native.String.{◌++◌ as append}
use ryvan_os.Base.Map.{Map, set}
use ryvan_os.Base.{
  ℕ, zero, suc, ◌+◌, ◌-◌, String, Bool, false, ◌&&◌, Option, none, some, List, [], ◌∷◌, ◌++◌, ltb,
  if◌then◌else◌, option_case, length, decimal,
}

-- A start at time 0 counts as none.
abbrev pub is_timed_out : Task → ℕ → Bool
is_timed_out task now =
    option_case task.started_at false (λ t. ltb 0 t && ltb task.timeout (now - t))

abbrev pub timeout_error : Task → String
timeout_error task = append "Task timed out after " (append (decimal task.timeout) "ms")

unfoldable pub expire : Map Task → ℕ → Scheduler → Scheduler
unfolding fail_task
expire [] now s = s
expire ((id, task) ∷ rest) now s =
    expire rest now
      (if is_timed_out task now then (fail_task s id (timeout_error task) now).0 else s)

-- The head of the loop that fills the free places.
unfoldable pub next_task : Scheduler → Scheduler × Option Task
next_task s =
    if ltb (length s.running) s.max_concurrency
    then (record s { queue = (dequeue s.queue).0 }, (dequeue s.queue).1)
    else (s, none)

abbrev pub begun : Task → ℕ → Task
begun task now = record task {
  status = TaskStatus.running;
  started_at = some now;
  attempts = task.attempts + 1;
}

abbrev pub begin : Task → ℕ → Scheduler → Scheduler
begin task now s = record s {
  running = set s.running task.id (begun task now);
  events = s.events ++ task_started (begun task now) ∷ [];
}

unfoldable pub fill : ℕ → ℕ → Scheduler → Scheduler
fill zero now s = s
fill (suc fuel) now s =
    option_case (next_task s).1 (next_task s).0
      (λ task. fill fuel now (begin task now (next_task s).0))

unfoldable pub poll : Scheduler → ℕ → Scheduler
unfolding expire fill
poll s now =
    let expired = expire s.running now s in
    if s.is_running then fill (length expired.queue.order + 1) now expired else s

pub record RuntimeStats : Type 0 where
  pub active_tasks : ℕ
  pub queued_tasks : ℕ
  pub completed_tasks : ℕ
  pub failed_tasks : ℕ
  pub total_tasks_processed : ℕ

-- The averages are left out.
unfoldable pub stats : Scheduler → RuntimeStats
stats s = record {
  active_tasks = length s.running;
  queued_tasks = size s.queue;
  completed_tasks = s.completed_count;
  failed_tasks = s.failed_count;
  total_tasks_processed = s.completed_count + s.failed_count;
}

-- The calls that reach the scheduler alone, while it has been started or stopped.
pub data Call : Type 0 where
  assigns : String → String → ℕ → Call
  submits : String → TaskResult → ℕ → Call
  fails : String → String → ℕ → Call
  polls : ℕ → Call

unfoldable pub call : Scheduler → Call → Scheduler
unfolding assign submit_result fail_task poll
call s (assigns id agent now) = (assign s id agent now).0
call s (submits id result now) = (submit_result s id result now).0
call s (fails id error now) = (fail_task s id error now).0
call s (polls now) = poll s now

unfoldable pub call_all : List Call → Scheduler → Scheduler
unfolding call
call_all [] s = s
call_all (c ∷ cs) s = call_all cs (call s c)
