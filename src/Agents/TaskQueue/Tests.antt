-- ===== src/Agents/TaskQueue/Tests.antt =====
-- Queues of a few tasks.
use ryvan_os.Agents.TaskQueue.Keeping.{apply_all-IsQueue, enqueue_lem}
use ryvan_os.Agents.TaskQueue.Order.{IsQueue, weight_of}
use ryvan_os.Agents.TaskQueue.{
  priority_weight, insert_id, enqueue, apply, remove_first, TaskStatus, empty_queue, enqueues,
  TaskPriority, apply_all, Task, TaskQueue, Op,
}
use ryvan_os.Base.Map.{get, set}
use ryvan_os.Base.{◌≤◌, ◌<◌, String, ◌≡◌, refl, subst, none, List, [], ◌∷◌, ◌++◌, All}

abbrev task : String → TaskPriority → Task
task id priority = record {
  id = id;
  goal = id;
  status = TaskStatus.queued;
  priority = priority;
  agent_id = none;
  parent_task_id = none;
  plan = none;
  result = none;
  error = none;
  attempts = 0;
  max_attempts = 3;
  timeout = 1000;
  metadata = "";
  created_at = 0;
  started_at = none;
  completed_at = none;
}

abbrev ops : List Op
ops =
    enqueues (task "a" TaskPriority.normal)
    ∷ enqueues (task "b" TaskPriority.critical)
    ∷ enqueues (task "c" TaskPriority.normal)
    ∷ []

abbrev queue : TaskQueue
queue = record {
  tasks =
      ("a", task "a" TaskPriority.normal)
      ∷ ("b", task "b" TaskPriority.critical)
      ∷ ("c", task "c" TaskPriority.normal)
      ∷ [];
  order = "b" ∷ "a" ∷ "c" ∷ [];
}

queue_runs : apply_all empty_queue ops ≡ queue
unfolding apply_all apply enqueue remove_first insert_id set get
queue_runs = refl

empty-IsQueue : IsQueue empty_queue
empty-IsQueue = record { known = tt; distinct = tt; sorted = tt }

queue-IsQueue : IsQueue queue
queue-IsQueue = subst IsQueue queue_runs (apply_all-IsQueue ops empty_queue empty-IsQueue)

apply_all-IsQueue_example : IsQueue (apply_all empty_queue ops)
apply_all-IsQueue_example = apply_all-IsQueue ops empty_queue empty-IsQueue

abbrev urgent : Task
urgent = task "d" TaskPriority.high

enqueue_lem_example :
    (before : List String) × (after : List String) × (before ++ after
      ≡ remove_first queue.order "d")
    × ((enqueue queue urgent).order ≡ before ++ "d" ∷ after)
    × All (λ y. weight_of (enqueue queue urgent).tasks y ≤ priority_weight TaskPriority.high) before
    × All (λ y. priority_weight TaskPriority.high < weight_of (enqueue queue urgent).tasks y) after
enqueue_lem_example = enqueue_lem queue urgent queue-IsQueue
