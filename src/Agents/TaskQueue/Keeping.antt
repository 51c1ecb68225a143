-- ===== src/Agents/TaskQueue/Keeping.antt =====
-- packages/agent-runtime/src/task-queue.ts: the queue under its operations.
use ryvan_os.Agents.TaskQueue.Placing.{Sorted-join, insert-Distinct, insert-All, enqueue-Placed}
use ryvan_os.Base.Map.{Map, delete, get, get-delete, get-set_same, set}
use ryvan_os.Agents.TaskQueue.Order.{
  remove_first-Sorted, remove_first-Distinct, remove_first-All, kept-Sorted, remove_first-Absent,
  kept-Known, Sorted, Known, Absent, weight_of, IsQueue,
}
use ryvan_os.Agents.TaskQueue.{
  take_first, insert_id, cancels, priority_weight, remove_first, TaskStatus, enqueues, TaskQueue,
  Task, Op, apply, apply_all, dequeue, cancel, enqueue, dequeues,
}
use ryvan_os.Base.{
  ℕ, ◌≤◌, ◌<◌, String, ◌≡◌, refl, sym, subst, Bool, true, false, some, List, [], ◌∷◌, ◌++◌, arith,
  eq_iff, ◌==◌, Distinct, is_some, if_both, option_both, any, All,
}

Known-insert :
    (m : Map Task) (id : String) (w : ℕ) (xs : List String)
    → is_some (get m id) ≡ true
    → Known m xs
    → Known m (insert_id m w id xs)
Known-insert m id w xs h k = insert-All m id w (λ x. is_some (get m x) ≡ true) xs h k

set_weight :
    (m : Map Task) (task : Task)
    → weight_of (set m task.id task) task.id ≡ priority_weight task.priority
set_weight m task = rw (get-set_same m task.id task) refl

pub enqueue-IsQueue : (q : TaskQueue) (task : Task) → IsQueue q → IsQueue (enqueue q task)
unfolding enqueue
enqueue-IsQueue q task h =
    let tasks = set q.tasks task.id task in
    let kept = remove_first q.order task.id in
    let absent = remove_first-Absent task.id q.order h.distinct in
    let p = enqueue-Placed q task h in
    let sorted =
      kept-Sorted task.id q.tasks task kept absent
        (remove_first-Sorted task.id q.tasks q.order h.sorted) in
    record {
      known =
          Known-insert tasks task.id (priority_weight task.priority) kept
            (rw (get-set_same q.tasks task.id task) refl)
            (kept-Known task.id q.tasks task kept
              (remove_first-All task.id (λ x. is_some (get q.tasks x) ≡ true) q.order h.known));
      distinct =
          insert-Distinct tasks task.id (priority_weight task.priority) kept absent
            (remove_first-Distinct task.id q.order h.distinct);
      sorted = subst (Sorted tasks) (sym p.placed) (
          Sorted-join tasks task.id (priority_weight task.priority) p.before p.after
            (set_weight q.tasks task) (subst (Sorted tasks) (sym p.parts) sorted) p.ahead p.behind);
    }

module _ (m : Map Task) (id : String) where
  delete-Known : (xs : List String) → Absent id xs → Known m xs → Known (delete m id) xs
  delete-Known [] a k = tt
  delete-Known (x ∷ xs) a k = (
    ground (arith, get-delete m id x, eq_iff id x, eq_iff x id, k.0),
    delete-Known xs (ground arith) k.1,
  )

  delete_weight : (y : String) → (y == id) ≡ false → get (delete m id) y ≡ get m y
  delete_weight y h = ground (arith, get-delete m id y, eq_iff id y, eq_iff y id)

  delete-Sorted : (xs : List String) → Absent id xs → Sorted m xs → Sorted (delete m id) xs
  delete-Sorted [] a s = tt
  delete-Sorted (x ∷ xs) a s = (later xs (ground arith) s.0, delete-Sorted xs (ground arith) s.1)
    where
      later :
          (ys : List String)
          → Absent id ys
          → All (λ y. weight_of m x ≤ weight_of m y) ys
          → All (λ y. weight_of (delete m id) x ≤ weight_of (delete m id) y) ys
      later [] b k = tt
      later (y ∷ ys) b k = (
        rw (delete_weight x (ground arith), delete_weight y (ground arith)) k.0,
        later ys (ground arith) k.1,
      )

pub dequeue-IsQueue : (q : TaskQueue) → IsQueue q → IsQueue (dequeue q).0
unfolding dequeue
dequeue-IsQueue q h = go q.order refl h.known h.distinct h.sorted
  where
    go :
        (ids : List String)
        → q.order ≡ ids
        → Known q.tasks ids
        → Distinct ids
        → Sorted q.tasks ids
        → IsQueue (take_first q ids).0
    go [] e k d s = h
    go (id ∷ rest) e k d s = record {
      known = delete-Known q.tasks id rest d.0 k.1;
      distinct = d.1;
      sorted = delete-Sorted q.tasks id rest d.0 s.1;
    }

cancel-IsQueue : (q : TaskQueue) (id : String) (now : ℕ) → IsQueue q → IsQueue (cancel q id now).0
unfolding cancel
cancel-IsQueue q id now h =
    if_both (λ (r : TaskQueue × Bool). IsQueue r.0) (any (λ x. x == id) q.order)
      (option_both (λ (r : TaskQueue × Bool). IsQueue r.0) (get q.tasks id) h
        (λ task e.
          let late = record task { status = TaskStatus.cancelled; completed_at = some now } in
          let kept = remove_first q.order id in
          record {
            known =
                kept-Known id q.tasks late kept
                  (remove_first-All id (λ x. is_some (get q.tasks x) ≡ true) q.order h.known);
            distinct = remove_first-Distinct id q.order h.distinct;
            sorted =
                kept-Sorted id q.tasks late kept (remove_first-Absent id q.order h.distinct)
                  (remove_first-Sorted id q.tasks q.order h.sorted);
          }))
      h

apply-IsQueue : (q : TaskQueue) (op : Op) → IsQueue q → IsQueue (apply q op)
unfolding apply
apply-IsQueue q (enqueues task) h = enqueue-IsQueue q task h
apply-IsQueue q dequeues h = dequeue-IsQueue q h
apply-IsQueue q (cancels id now) h = cancel-IsQueue q id now h

-- Whatever is done to a queue in order, it stays in order: every queued id has a task, no id is
-- queued twice, and no id is queued ahead of one of higher priority.
pub apply_all-IsQueue : (ops : List Op) (q : TaskQueue) → IsQueue q → IsQueue (apply_all q ops)
unfolding apply_all
apply_all-IsQueue [] q h = h
apply_all-IsQueue (op ∷ ops) q h = apply_all-IsQueue ops (apply q op) (apply-IsQueue q op h)

-- On a queue in order, a task that is queued, again or for the first time, goes behind every other queued task of its
-- priority or a higher one, and ahead of all the rest, which keep their order.
pub enqueue_lem :
    (q : TaskQueue) (task : Task)
    → IsQueue q
    → (before : List String) × (after : List String) × (before ++ after
        ≡ remove_first q.order task.id)
      × ((enqueue q task).order ≡ before ++ task.id ∷ after)
      × All (λ y. weight_of (enqueue q task).tasks y ≤ priority_weight task.priority) before
      × All (λ y. priority_weight task.priority < weight_of (enqueue q task).tasks y) after
unfolding enqueue
enqueue_lem q task h =
    let p = enqueue-Placed q task h in (p.before, p.after, p.parts, p.placed, p.ahead, p.behind)
