-- ===== src/Agents/Scheduler/Tests.antt =====
-- A scheduler with two places and three tasks.
use ryvan_os.Agents.Scheduler.Attempts.{Within}
use ryvan_os.Agents.Scheduler.Polling.{next_task, poll, polls, call_all}
use ryvan_os.Agents.TaskQueue.{
  dequeue, remove_first, insert_id, dequeue, remove_first, insert_id, remove_first, insert_id, Task,
  TaskQueue, TaskStatus, TaskPriority, enqueue, empty_queue,
}
use ryvan_os.Agents.TaskQueue.Order.{IsQueue}
use ryvan_os.Agents.TaskQueue.Keeping.{enqueue-IsQueue}
use ryvan_os.Agents.Scheduler.{Scheduler, new_scheduler, start, fail_task}
use ryvan_os.Agents.Scheduler.Bounds.{
  enqueues_task, Steps, stays, step, starts, calls, Steps-Within,
}
use ryvan_os.Agents.Scheduler.Filling.{Filled, poll_fills}
use ryvan_os.Agents.Runtime.Waiting.{ServiceCall, of_scheduler, cancels, planned}
use ryvan_os.Agents.Runtime.{RuntimeService, Status, cancel_task}
use ryvan_os.Agents.Runtime.Cancelling.{cancelled_retries}
use ryvan_os.Base.Map.{delete, set, delete, set, set, get, values}
use ryvan_os.Base.{String, ◌≡◌, refl, true, none, some, List, [], ◌∷◌, map, arith, returned}

abbrev task : String → Task
task id = record {
  id = id;
  goal = id;
  status = TaskStatus.queued;
  priority = TaskPriority.normal;
  agent_id = none;
  parent_task_id = none;
  plan = some "plan";
  result = none;
  error = none;
  attempts = 0;
  max_attempts = 2;
  timeout = 100;
  metadata = "{}";
  created_at = 0;
  started_at = none;
  completed_at = none;
}

abbrev queue : TaskQueue
queue = enqueue (enqueue (enqueue empty_queue (task "a")) (task "b")) (task "c")

abbrev fresh_scheduler : Scheduler
fresh_scheduler = new_scheduler queue 2

abbrev started : Scheduler
started = poll (start fresh_scheduler) 10

places : map (λ (t : Task). t.id) (values started.running) ≡ "a" ∷ "b" ∷ []
unfolding poll enqueue insert_id remove_first get set next_task dequeue delete
places = refl

-- At 200 the two tasks have timed out; they go behind the third.
retries : map (λ (t : Task). t.attempts) (values (poll started 200).running) ≡ 1 ∷ 2 ∷ []
unfolding poll enqueue insert_id remove_first get set next_task dequeue delete
retries = refl

queue-IsQueue : IsQueue queue
queue-IsQueue = enqueue-IsQueue _ (task "c") (
    enqueue-IsQueue _ (task "b")
      (enqueue-IsQueue empty_queue (task "a") (record { known = tt; distinct = tt; sorted = tt })))

run : Steps (new_scheduler empty_queue 1) (
    call_all
      (polls 10 ∷ polls 200 ∷ [])
      (record (start (new_scheduler empty_queue 1)) { queue = enqueue empty_queue (task "a") }))
unfolding call_all
run = step starts (
    step (enqueues_task (task "a") (omega arith))
      (step (calls (polls 10)) (step (calls (polls 200)) stays)))

Steps-Within_example : Within (
    call_all
      (polls 10 ∷ polls 200 ∷ [])
      (record (start (new_scheduler empty_queue 1)) { queue = enqueue empty_queue (task "a") }))
Steps-Within_example = Steps-Within run (record { few = omega arith; queued = tt; running = tt })

poll_fills_example : Filled (poll (start fresh_scheduler) 10)
poll_fills_example = poll_fills (start fresh_scheduler) 10 queue-IsQueue refl

abbrev busy : Scheduler
busy = record (start fresh_scheduler) { running = ("d", task "d") ∷ [] }

abbrev service : RuntimeService
service = record { state = Status.running; scheduler = busy }

cancelled_retries_example :
    ((cancel_task service "d" 20).1 ≡ true)
    × ((fail_task (cancel_task service "d" 20).0.scheduler "d" "no" 30).0.queue
        ≡ enqueue queue (record (task "d") {
          status = TaskStatus.pending;
          error = some "no";
          completed_at = some 20;
        }))
unfolding enqueue insert_id remove_first get set
cancelled_retries_example =
    cancelled_retries service "d" "no" 20 30 (task "d") refl refl refl (omega arith)

abbrev late : List ServiceCall
late = of_scheduler (polls 20) ∷ cancels "d" 25 ∷ planned (task "e") (returned "plan") ∷ []
