-- ===== src/Agents/TaskQueue/Emptying.antt =====
-- packages/agent-runtime/src/task-queue.ts: taking the tasks out one by one.
use ryvan_os.Agents.TaskQueue.{Task, TaskQueue, dequeue, pending_tasks, present}
use ryvan_os.Agents.TaskQueue.Order.{IsQueue, Absent, Known}
use ryvan_os.Base.Map.{Map, get, delete, get-delete}
use ryvan_os.Base.{
  ◌+◌, String, ◌≡◌, refl, sym, ap, subst, ◌⊎◌, inl, inr, none, some, List, [], ◌∷◌, map, arith,
  eq_iff, Distinct, Option-cases, length,
}

present-delete :
    (m : Map Task) (id : String) (xs : List String)
    → Absent id xs
    → present (map (get (delete m id)) xs) ≡ present (map (get m) xs)
present-delete m id [] a = refl
present-delete m id (x ∷ xs) a =
    let same : get (delete m id) x ≡ get m x =
      ground (arith, get-delete m id x, eq_iff id x, eq_iff x id) in
    rw same (elim (Option-cases (get m x)) [
      | inl gone ↦ rw gone (present-delete m id xs (ground arith))
      | inr (t, e) ↦ rw e (ap (λ r. t ∷ r) (present-delete m id xs (ground arith)))
    ])

-- A queue that is empty, or gives out its first task.
pub record Next (q : TaskQueue) (task : Task) : Type 0 where
  pub handed : (dequeue q).1 ≡ some task
  pub shorter : length q.order ≡ length (dequeue q).0.order + 1
  pub next_listed : pending_tasks q ≡ task ∷ pending_tasks (dequeue q).0

-- An empty queue gives out nothing, and stays as it is.
pub dequeue_empty : (q : TaskQueue) → q.order ≡ [] → dequeue q ≡ (q, none)
unfolding dequeue
dequeue_empty q e = rw e refl

pub pending_none : (q : TaskQueue) → q.order ≡ [] → pending_tasks q ≡ []
unfolding pending_tasks
pending_none q e = rw e refl

pub dequeue-Next : (q : TaskQueue) → IsQueue q → (q.order ≡ []) ⊎ ((task : Task) × Next q task)
unfolding dequeue pending_tasks
dequeue-Next q h = go q.order refl
  where
    go : (ids : List String) → q.order ≡ ids → (q.order ≡ []) ⊎ ((task : Task) × Next q task)
    go [] e = inl e
    go (id ∷ rest) e =
        let known : Known q.tasks (id ∷ rest) = subst (Known q.tasks) e h.known in
        let distinct : Distinct (id ∷ rest) = subst Distinct e h.distinct in
        elim (Option-cases (get q.tasks id)) [
          | inl gone ↦ let bad = rw gone at known.0 in cc
          | inr (task, found) ↦ inr (
            task,
            record {
              handed = rw (e, found) refl;
              shorter = rw e (omega arith);
              next_listed =
                  rw (e, found)
                    (ap (λ r. task ∷ r) (sym (present-delete q.tasks id rest distinct.0)));
            },
          )
        ]
