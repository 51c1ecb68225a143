-- ===== src/Agents/TaskQueue/Placing.antt =====
-- packages/agent-runtime/src/task-queue.ts: where `enqueue` puts a task.
use ryvan_os.Agents.TaskQueue.Order.{
  remove_first-Sorted, remove_first-Absent, kept-Sorted, remove_first-All, kept-Known, Known,
  Sorted, IsQueue, weight_of,
}
use ryvan_os.Base.Map.{Map, get, set}
use ryvan_os.Agents.TaskQueue.{
  remove_first, priority_weight, is_heavier, insert_id, Task, TaskQueue,
}
use ryvan_os.Base.{
  ℕ, ◌≤◌, ◌<◌, String, ◌≡◌, refl, ap, inl, inr, true, false, Option, none, some, List, [], ◌∷◌,
  ◌++◌, arith, eq_iff, ◌==◌, All-weaken, Distinct, is_some, option_case, if_both, Bool-cases, any,
  All, All-append, All-left, All-right,
}

module _ (m : Map Task) (id : String) (w : ℕ) where
  pub insert-All :
      (P : String → Type 0) (xs : List String) → P id → All P xs → All P (insert_id m w id xs)
  unfolding insert_id
  insert-All P [] p h = (p, tt)
  insert-All P (x ∷ xs) p h =
      if_both (All P) (is_heavier (get m x) w) (p, h) (h.0, insert-All P xs p h.1)

  pub insert-any :
      (x : String) (xs : List String)
      → any (λ y. y == x) xs ≡ false
      → (id == x) ≡ false
      → any (λ y. y == x) (insert_id m w id xs) ≡ false
  unfolding insert_id
  insert-any x [] h k = ground arith
  insert-any x (y ∷ ys) h k = ground (arith, insert-any x ys)

  pub insert-Distinct :
      (xs : List String)
      → any (λ y. y == id) xs ≡ false
      → Distinct xs
      → Distinct (insert_id m w id xs)
  unfolding insert_id
  insert-Distinct [] a d = (refl, tt)
  insert-Distinct (x ∷ xs) a d =
      if_both Distinct (is_heavier (get m x) w) (a, d)
        (
          insert-any x xs d.0 (ground (arith, eq_iff x id, eq_iff id x)),
          insert-Distinct xs (ground arith) d.1,
        )

  -- Where an id goes: behind all that do not weigh more, ahead of all that do.
  pub record Placed (xs : List String) : Type 0 where
    pub before : List String
    pub after : List String
    pub parts : before ++ after ≡ xs
    pub placed : insert_id m w id xs ≡ before ++ id ∷ after
    pub ahead : All (λ y. weight_of m y ≤ w) before
    pub behind : All (λ y. w < weight_of m y) after

  pub insert-Placed : (xs : List String) → Known m xs → Sorted m xs → Placed xs
  unfolding insert_id
  insert-Placed [] k s = record {
    before = [];
    after = [];
    parts = refl;
    placed = refl;
    ahead = tt;
    behind = tt;
  }
  insert-Placed (x ∷ xs) k s = elim (Bool-cases (is_heavier (get m x) w)) [
    | inl heavy ↦
        let lt : w < weight_of m x = heavier (get m x) heavy in
        record {
          before = [];
          after = x ∷ xs;
          parts = refl;
          placed = rw heavy refl;
          ahead = tt;
          behind = (lt, All-weaken xs (λ y h. omega (arith, lt, h)) s.0);
        }
    | inr light ↦
        let p = insert-Placed xs k.1 s.1 in
        record {
          before = x ∷ p.before;
          after = p.after;
          parts = ap (λ ys. x ∷ ys) p.parts;
          placed = rw light (ap (λ ys. x ∷ ys) p.placed);
          ahead = (lighter (get m x) k.0 light, p.ahead);
          behind = p.behind;
        }
  ]
    where
      heavier :
          (o : Option Task)
          → is_heavier o w ≡ true
          → w < option_case o 0 (λ t. priority_weight t.priority)
      heavier none h = cc
      heavier (some t) h = ground arith

      lighter :
          (o : Option Task)
          → is_some o ≡ true
          → is_heavier o w ≡ false
          → option_case o 0 (λ t. priority_weight t.priority) ≤ w
      lighter none e h = cc
      lighter (some t) e h = ground arith

  pub Sorted-join :
      (before after : List String)
      → weight_of m id ≡ w
      → Sorted m (before ++ after)
      → All (λ y. weight_of m y ≤ w) before
      → All (λ y. w < weight_of m y) after
      → Sorted m (before ++ id ∷ after)
  Sorted-join [] after e s a b = (All-weaken after (λ y h. omega (arith, e, h)) b, s)
  Sorted-join (x ∷ before) after e s a b = (
    All-append _ before (id ∷ after) (All-left _ before after s.0)
        (omega (arith, e, a.0), All-right _ before after s.0),
    Sorted-join before after e s.1 a.1 b,
  )

pub enqueue-Placed :
    (q : TaskQueue) (task : Task)
    → IsQueue q
    → Placed
        (set q.tasks task.id task)
        task.id
        (priority_weight task.priority)
        (remove_first q.order task.id)
enqueue-Placed q task h =
    let tasks = set q.tasks task.id task in
    let kept = remove_first q.order task.id in
    insert-Placed tasks task.id (priority_weight task.priority) kept
      (kept-Known task.id q.tasks task kept
        (remove_first-All task.id (λ x. is_some (get q.tasks x) ≡ true) q.order h.known))
      (kept-Sorted task.id q.tasks task kept (remove_first-Absent task.id q.order h.distinct)
        (remove_first-Sorted task.id q.tasks q.order h.sorted))
