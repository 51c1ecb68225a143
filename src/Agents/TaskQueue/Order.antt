-- ===== src/Agents/TaskQueue/Order.antt =====
-- packages/agent-runtime/src/task-queue.ts: the order of the queue as a predicate.
use ryvan_os.Agents.TaskQueue.{priority_weight, Task, remove_first, TaskQueue}
use ryvan_os.Base.Map.{Map, get, get-set, set}
use ryvan_os.Base.{
  ℕ, ◌≤◌, String, ◌≡◌, refl, true, false, List, [], ◌∷◌, arith, eq_iff, ◌==◌, Distinct, is_some,
  option_case, if_both, any, All,
}

abbrev pub weight_of : Map Task → String → ℕ
weight_of tasks id = option_case (get tasks id) 0 (λ t. priority_weight t.priority)

-- Every id has its task, no id comes twice, and no id weighs more than a later one.
abbrev pub Sorted : Map Task → List String → Type 0
Sorted tasks [] = Unit
Sorted tasks (x ∷ xs) = All (λ y. weight_of tasks x ≤ weight_of tasks y) xs × Sorted tasks xs

abbrev pub Known : Map Task → List String → Type 0
Known tasks ids = All (λ x. is_some (get tasks x) ≡ true) ids

pub record IsQueue (q : TaskQueue) : Type 0 where
  pub known : Known q.tasks q.order
  pub distinct : Distinct q.order
  pub sorted : Sorted q.tasks q.order

module _ (id : String) where
  abbrev pub Absent : List String → Type 0
  Absent xs = any (λ y. y == id) xs ≡ false

  pub remove_first-All :
      (P : String → Type 0) (xs : List String) → All P xs → All P (remove_first xs id)
  unfolding remove_first
  remove_first-All P [] h = tt
  remove_first-All P (x ∷ xs) h = if_both (All P) (x == id) h.1 (h.0, remove_first-All P xs h.1)

  pub remove_first-Sorted :
      (m : Map Task) (xs : List String) → Sorted m xs → Sorted m (remove_first xs id)
  unfolding remove_first
  remove_first-Sorted m [] h = tt
  remove_first-Sorted m (x ∷ xs) h =
      if_both (Sorted m) (x == id) h.1
        (remove_first-All (λ y. weight_of m x ≤ weight_of m y) xs h.0, remove_first-Sorted m xs h.1)

  pub remove_first-any :
      (x : String) (xs : List String)
      → any (λ y. y == x) xs ≡ false
      → any (λ y. y == x) (remove_first xs id) ≡ false
  unfolding remove_first
  remove_first-any x [] h = refl
  remove_first-any x (y ∷ ys) h = ground (arith, remove_first-any x ys)

  pub remove_first-Distinct : (xs : List String) → Distinct xs → Distinct (remove_first xs id)
  unfolding remove_first
  remove_first-Distinct [] h = tt
  remove_first-Distinct (x ∷ xs) h =
      if_both Distinct (x == id) h.1 (remove_first-any x xs h.0, remove_first-Distinct xs h.1)

  pub remove_first-Absent : (xs : List String) → Distinct xs → Absent (remove_first xs id)
  unfolding remove_first
  remove_first-Absent [] h = refl
  remove_first-Absent (x ∷ xs) h = ground (arith, h.0, eq_iff x id, remove_first-Absent xs h.1)

  -- A new entry for the id does not matter to lists without it.
  pub kept_weight :
      (m : Map Task) (t : Task) (y : String) → (y == id) ≡ false → get (set m id t) y ≡ get m y
  kept_weight m t y h = ground (arith, get-set m id y t, eq_iff id y, eq_iff y id)

  pub kept-Known : (m : Map Task) (t : Task) (xs : List String) → Known m xs → Known (set m id t) xs
  kept-Known m t [] h = tt
  kept-Known m t (x ∷ xs) h = (ground (arith, get-set m id x t, h.0), kept-Known m t xs h.1)

  pub kept-Sorted :
      (m : Map Task) (t : Task) (xs : List String)
      → Absent xs
      → Sorted m xs
      → Sorted (set m id t) xs
  kept-Sorted m t [] a h = tt
  kept-Sorted m t (x ∷ xs) a h =
      (later xs (ground arith) h.0, kept-Sorted m t xs (ground arith) h.1)
    where
      later :
          (ys : List String)
          → Absent ys
          → All (λ y. weight_of m x ≤ weight_of m y) ys
          → All (λ y. weight_of (set m id t) x ≤ weight_of (set m id t) y) ys
      later [] b k = tt
      later (y ∷ ys) b k = (
        rw (kept_weight m t x (ground arith), kept_weight m t y (ground arith)) k.0,
        later ys (ground arith) k.1,
      )
