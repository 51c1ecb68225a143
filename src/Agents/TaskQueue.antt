-- ===== src/Agents/TaskQueue.antt =====
-- packages/agent-runtime/src/task-queue.ts, and the task of packages/agent-runtime/src/types.ts.
-- Plans, what a result says, and metadata of tasks are opaque texts.
pub mod Order
pub mod Placing
pub mod Keeping
pub mod Emptying
pub mod Tests
use ryvan_os.Base.Map.{delete, get, Map, set}
use ryvan_os.Base.{
  ℕ, String, Bool, true, false, Option, none, some, List, [], ◌∷◌, map, ltb, ◌==◌, if◌then◌else◌,
  option_case, length, any,
}

pub data TaskStatus : Type 0 where
  pending planning queued running verifying completed failed cancelled : TaskStatus

pub data TaskPriority : Type 0 where
  low normal high critical : TaskPriority

pub record TaskResult : Type 0 where
  pub output : String
  pub duration : ℕ

pub record Task : Type 0 where
  pub id : String
  pub goal : String
  pub status : TaskStatus
  pub priority : TaskPriority
  pub agent_id : Option String
  pub parent_task_id : Option String
  pub plan : Option String
  pub result : Option TaskResult
  pub error : Option String
  pub attempts : ℕ
  pub max_attempts : ℕ
  pub timeout : ℕ
  pub metadata : String
  pub created_at : ℕ
  pub started_at : Option ℕ
  pub completed_at : Option ℕ

abbrev pub priority_weight : TaskPriority → ℕ
priority_weight TaskPriority.critical = 0
priority_weight TaskPriority.high = 1
priority_weight TaskPriority.normal = 2
priority_weight TaskPriority.low = 3

pub record TaskQueue : Type 0 where
  pub tasks : Map Task
  pub order : List String

-- `indexOf`, then `splice` when it is found.
unfoldable pub remove_first : List String → String → List String
remove_first [] id = []
remove_first (x ∷ xs) id = if x == id then xs else x ∷ remove_first xs id

abbrev pub is_heavier : Option Task → ℕ → Bool
is_heavier existing weight =
    option_case existing false (λ t. ltb weight (priority_weight t.priority))

-- `splice` before the first id whose task weighs more, or at the end.
unfoldable pub insert_id : Map Task → ℕ → String → List String → List String
insert_id tasks weight id [] = id ∷ []
insert_id tasks weight id (x ∷ xs) =
    if is_heavier (get tasks x) weight then id ∷ x ∷ xs else x ∷ insert_id tasks weight id xs

unfoldable pub enqueue : TaskQueue → Task → TaskQueue
enqueue q task =
    let tasks = set q.tasks task.id task in
    record {
      tasks = tasks;
      order =
          insert_id tasks (priority_weight task.priority) task.id (remove_first q.order task.id);
    }

-- `shift` of the order as it stands.
abbrev pub take_first : TaskQueue → List String → TaskQueue × Option Task
take_first q [] = (q, none)
take_first q (id ∷ rest) = (record { tasks = delete q.tasks id; order = rest }, get q.tasks id)

unfoldable pub dequeue : TaskQueue → TaskQueue × Option Task
dequeue q = take_first q q.order

unfoldable pub peek : TaskQueue → Option Task
peek q = elim q.order [ [] ↦ none | id ∷ rest ↦ get q.tasks id ]

unfoldable pub cancel : TaskQueue → String → ℕ → TaskQueue × Bool
cancel q id now =
    if any (λ x. x == id) q.order
    then option_case (get q.tasks id) (q, false)
        (λ task. (
          record {
            tasks =
                set q.tasks id
                  (record task { status = TaskStatus.cancelled; completed_at = some now });
            order = remove_first q.order id;
          },
          true,
        ))
    else (q, false)

abbrev pub size : TaskQueue → ℕ
size q = length q.order

abbrev pub present : List (Option Task) → List Task
present [] = []
present (none ∷ os) = present os
present (some t ∷ os) = t ∷ present os

unfoldable pub pending_tasks : TaskQueue → List Task
pending_tasks q = present (map (get q.tasks) q.order)

abbrev pub get_by_id : TaskQueue → String → Option Task
get_by_id q id = get q.tasks id

pub data Op : Type 0 where
  enqueues : Task → Op
  dequeues : Op
  cancels : String → ℕ → Op

unfoldable pub apply : TaskQueue → Op → TaskQueue
apply q (enqueues task) = enqueue q task
apply q dequeues = (dequeue q).0
apply q (cancels id now) = (cancel q id now).0

unfoldable pub apply_all : TaskQueue → List Op → TaskQueue
unfolding apply
apply_all q [] = q
apply_all q (op ∷ ops) = apply_all (apply q op) ops

abbrev pub empty_queue : TaskQueue
empty_queue = record { tasks = []; order = [] }
