-- ===== src/Agents/Scheduler/Attempts.antt =====
-- packages/agent-runtime/src/scheduler.ts: the attempts of queued and running tasks.
use ryvan_os.Agents.TaskQueue.{Task, TaskQueue, dequeue, enqueue, cancel, take_first}
use ryvan_os.Agents.Scheduler.{Scheduler}
use ryvan_os.Base.Map.{
  Map, get, set, delete, values, All-values-set, All-values-delete, All-values-get,
}
use ryvan_os.Base.{
  ℕ, ◌+◌, ◌≤◌, ◌<◌, String, ◌≡◌, Bool, some, List, [], ◌∷◌, arith, ◌==◌, if_both, option_both,
  length, any, All,
}

abbrev pub IsFresh : Task → Type 0
IsFresh t = t.attempts < t.max_attempts

abbrev pub WithinAttempts : Task → Type 0
WithinAttempts t = t.attempts ≤ t.max_attempts

-- No more tasks run than may, each of them within its attempts, and the queued ones have attempts
-- left.
pub record Within (s : Scheduler) : Type 0 where
  pub few : length s.running ≤ s.max_concurrency
  pub queued : All IsFresh (values s.queue.tasks)
  pub running : All WithinAttempts (values s.running)

module _ {V : Type 0} where
  pub length-set_le : (m : Map V) (k : String) (v : V) → length (set m k v) ≤ length m + 1
  unfolding set
  length-set_le [] k v = omega arith
  length-set_le ((j, w) ∷ m) k v = ground (arith, length-set_le m k v)

  pub length-set_present :
      (m : Map V) (k : String) (v w : V) → get m k ≡ some w → length (set m k v) ≡ length m
  unfolding set get
  length-set_present [] k v w h = cc
  length-set_present ((j, u) ∷ m) k v w h = ground (arith, length-set_present m k v w)

  pub length-delete_le : (m : Map V) (k : String) → length (delete m k) ≤ length m
  unfolding delete
  length-delete_le [] k = omega arith
  length-delete_le ((j, w) ∷ m) k = ground (arith, length-delete_le m k)

pub enqueue-IsFresh :
    (q : TaskQueue) (t : Task)
    → All IsFresh (values q.tasks)
    → IsFresh t
    → All IsFresh (values (enqueue q t).tasks)
unfolding enqueue
enqueue-IsFresh q t a f = All-values-set IsFresh q.tasks t.id t a f

pub dequeue-IsFresh :
    (q : TaskQueue) → All IsFresh (values q.tasks) → All IsFresh (values (dequeue q).0.tasks)
unfolding dequeue
dequeue-IsFresh q a = go q.order
  where
    go : (ids : List String) → All IsFresh (values (take_first q ids).0.tasks)
    go [] = a
    go (id ∷ rest) = All-values-delete IsFresh q.tasks id a

pub dequeued-IsFresh :
    (q : TaskQueue) {t : Task} → All IsFresh (values q.tasks) → (dequeue q).1 ≡ some t → IsFresh t
unfolding dequeue
dequeued-IsFresh q {t} a = go q.order
  where
    go : (ids : List String) → (take_first q ids).1 ≡ some t → IsFresh t
    go [] h = cc
    go (id ∷ rest) h = All-values-get IsFresh q.tasks id a h

pub cancel-IsFresh :
    (q : TaskQueue) (id : String) (now : ℕ)
    → All IsFresh (values q.tasks)
    → All IsFresh (values (cancel q id now).0.tasks)
unfolding cancel
cancel-IsFresh q id now a =
    if_both (λ (r : TaskQueue × Bool). All IsFresh (values r.0.tasks)) (any (λ x. x == id) q.order)
      (option_both (λ (r : TaskQueue × Bool). All IsFresh (values r.0.tasks)) (get q.tasks id) a
        (λ task e. All-values-set IsFresh q.tasks id _ a (All-values-get IsFresh q.tasks id a e)))
      a
